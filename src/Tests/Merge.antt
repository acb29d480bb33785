-- ===== src/Tests/Merge.antt =====
-- internal/storage/sqlite/store.go: MergeAssets on two assets, one with a hardware address.
use corta_sentry.Prelude.{
  ◌≡◌, refl, true, false, some, [], ◌∷◌, ◌++◌, Memᴰ, ok, update_where, delete_where,
}
use corta_sentry.Assets.Inventory.{Inventory, merged, kind_code}
use corta_sentry.Assets.Resolve.{new_asset, decide, strong_kind}
use corta_sentry.Assets.Conflict.{HasRow, StrongRows}
use corta_sentry.Assets.Merge.{
  Ledger, merge_assets, unmerged_count, copy_identifiers, copy_addresses, copy_links, move_owned,
  move_findings,
}
use corta_sentry.Assets.Merge.Names.{merge_assets_conflicts}
use corta_sentry.Tests.Assets.{card, known, seen, known_row}

abbrev pair : Inventory
pair = record known { assets = known.assets ++ new_asset 5 (seen 8 2000) false ∷ [] }

abbrev ledger : Ledger
ledger = record {
  inventory = pair;
  candidates = record { id = 1; asset = 1 } ∷ [];
  changes = [];
  findings = record { findings = []; history = [] };
}

abbrev joined : Ledger
joined = record {
  inventory = record {
    assets =
        record (new_asset 1 (seen 7 1000) false) { merged_into = some 5; status = merged }
        ∷ new_asset 5 (seen 8 2000) false
        ∷ [];
    identifiers = known_row ∷ record known_row { asset = 5 } ∷ [];
    addresses =
        known.addresses
        ++ record { asset = 5; address = 99; first_seen = 1000; last_seen = 1000; current = true }
          ∷ [];
    links = record { asset = 5; observation = 7; conflict = false; manual_merge = true } ∷ [];
  };
  candidates = record { id = 1; asset = 5 } ∷ [];
  changes = [];
  findings = record { findings = []; history = [] };
}

merges : merge_assets 1 5 ledger ≡ (ok tt, joined)
unfolding merge_assets unmerged_count copy_identifiers copy_addresses copy_links move_owned
    move_findings update_where delete_where kind_code
merges = refl

source_has : HasRow 1 card pair.identifiers
unfolding kind_code
source_has = refl

source_strong : StrongRows 1 pair.identifiers
unfolding strong_kind
source_strong = refl

target_strong : StrongRows 5 pair.identifiers
unfolding strong_kind
target_strong = refl

card_strong : strong_kind card.kind ≡ true
unfolding strong_kind
card_strong = refl

merge_assets_conflicts_example :
    let r = (decide 9 (seen 9 3000) (card ∷ []) joined.inventory).0 in
    (r.conflict ≡ true) × (r.created ≡ true) × (r.asset ≡ 9)
merge_assets_conflicts_example =
    merge_assets_conflicts 1 5 ledger joined card merges card_strong source_has source_strong
      target_strong 9 (seen 9 3000) (card ∷ []) (Memᴰ.head refl)
