-- ===== src/Tests/Assets.antt =====
-- internal/assets/resolver.go on an inventory in which one hardware address has an asset.
use corta_sentry.Prelude.{
  ℕ, ◌≡◌, refl, ap, true, false, none, some, List, [], ◌∷◌, ◌++◌, arith, Memᴰ, elem, inl,
}
use corta_sentry.Assets.Inventory.{
  Kind, mac, serial_number, kind_code, Identifier, Inventory, active, strong, unset, IdRow,
  create_asset, attach_observation, touch_asset, upsert_address, add_identifier, upsert_identifier,
  find_assets_by_identifier, assets_named,
}
use corta_sentry.Assets.Resolve.{
  Observation, Resolution, strong_kind, gather, gather_one, gather_found, add_matches,
  with_continuity, choose, decide, add_new, add_identifiers, resolve, asset_created, asset_updated,
  asset_identity_conflict, strong_identifier_conflict, no_strong_identifier_match,
  strong_identifier_match, new_asset,
}
use corta_sentry.Assets.Conflict.{Named, decide_conflict}
use corta_sentry.Assets.Repeat.{resolve_conflict_repeats}
use corta_sentry.Assets.Later.{Later, IsSighting, resolve_persists}

abbrev pub identifier : Kind → ℕ → Identifier
identifier k v = record {
  kind = k;
  value = v;
  strength = unset;
  provenance = 1;
  observation = 0;
  first_seen = 0;
  last_seen = 0;
}

abbrev pub card : Identifier
card = identifier mac 11

abbrev pub serial : Identifier
serial = identifier serial_number 12

abbrev empty : Inventory
empty = record { assets = []; identifiers = []; addresses = []; links = [] }

abbrev pub seen : ℕ → ℕ → Observation
seen i at = record { id = i; target = 99; observed_at = at }

abbrev first : Resolution
first = record {
  asset = 1;
  reason = no_strong_identifier_match (card ∷ []);
  created = true;
  conflict = false;
}

abbrev pub known_row : IdRow
known_row = record {
  asset = 1;
  ident = record card { strength = strong; observation = 7; first_seen = 1000; last_seen = 1000 };
}

abbrev pub known : Inventory
known = record {
  assets = new_asset 1 (seen 7 1000) false ∷ [];
  identifiers = known_row ∷ [];
  addresses =
      record { asset = 1; address = 99; first_seen = 1000; last_seen = 1000; current = true } ∷ [];
  links = record { asset = 1; observation = 7; conflict = false; manual_merge = false } ∷ [];
}

first_resolution : resolve 1 (seen 7 1000) (card ∷ []) empty ≡ some (first, asset_created, known)
unfolding resolve decide gather gather_one gather_found add_matches with_continuity choose add_new
    create_asset attach_observation touch_asset upsert_address add_identifiers add_identifier
    upsert_identifier find_assets_by_identifier assets_named strong_kind kind_code
first_resolution = refl

-- The identifiers of an observation of the card alone.
only_card : (i : Identifier) → Memᴰ i (card ∷ []) → i ≡ card
only_card i (Memᴰ.head e) = e
only_card i (Memᴰ.tail m) = elim m [ ]

abbrev second_sighting : Resolution
second_sighting = record {
  asset = 1;
  reason = strong_identifier_match (card ∷ []);
  created = false;
  conflict = false;
}

-- The card is seen a second time.
abbrev seen_again : Inventory
seen_again = record known {
  assets = record (new_asset 1 (seen 7 1000) false) { last_seen = 2000 } ∷ [];
  identifiers =
      record known_row { ident = record known_row.ident { last_seen = 2000; observation = 8 } }
      ∷ [];
  addresses =
      record { asset = 1; address = 99; first_seen = 1000; last_seen = 2000; current = true } ∷ [];
  links =
      known.links
      ++ record { asset = 1; observation = 8; conflict = false; manual_merge = false } ∷ [];
}

second_resolution :
    resolve 2 (seen 8 2000) (card ∷ []) known ≡ some (second_sighting, asset_updated, seen_again)
unfolding resolve decide gather gather_one gather_found add_matches with_continuity choose add_new
    create_asset attach_observation touch_asset upsert_address add_identifiers add_identifier
    upsert_identifier find_assets_by_identifier assets_named strong_kind kind_code elem
second_resolution = refl

card-IsSighting : IsSighting (card ∷ []) (card ∷ [])
unfolding strong_kind
card-IsSighting = record {
  within = λ i m c. m;
  evidence = card;
  carried = Memᴰ.head refl;
  counted = refl;
}

resolve_persists_example :
    let d = decide 3 (seen 9 3000) (card ∷ []) seen_again in
    (d.0.asset ≡ 1) × (d.0.created ≡ false) × (d.0.conflict ≡ false) × (d.1 ≡ none)
unfolding strong_kind
resolve_persists_example =
    resolve_persists 1 (seen 7 1000) (card ∷ []) empty known first asset_created first_resolution
      refl refl (λ i m c. ap (λ (x : Identifier). strong_kind x.kind) (only_card i m))
      (Later.next 2 (seen 8 2000) (card ∷ []) second_sighting asset_updated Later.here
        second_resolution (inl card-IsSighting))
      3 (seen 9 3000) (card ∷ []) card-IsSighting

abbrev both : List Identifier
both = card ∷ serial ∷ []

abbrev clash : Resolution
clash = record {
  asset = 2;
  reason = strong_identifier_conflict (card ∷ []) (serial ∷ []);
  created = true;
  conflict = true;
}

abbrev clashed : Inventory
clashed = add_identifiers 2 (seen 8 2000) both (record known {
  assets = known.assets ++ record (new_asset 2 (seen 8 2000) true) { status = active } ∷ [];
  addresses =
      known.addresses
      ++ record { asset = 2; address = 99; first_seen = 2000; last_seen = 2000; current = true }
        ∷ [];
  links =
      known.links
      ++ record { asset = 2; observation = 8; conflict = true; manual_merge = false } ∷ [];
})

clash_resolution :
    resolve 2 (seen 8 2000) both known ≡ some (clash, asset_identity_conflict, clashed)
unfolding resolve decide gather gather_one gather_found add_matches with_continuity choose add_new
    create_asset attach_observation touch_asset upsert_address add_identifiers add_identifier
    upsert_identifier find_assets_by_identifier assets_named strong_kind kind_code elem
clash_resolution = refl

card-Named : Named 1 card known
unfolding find_assets_by_identifier assets_named kind_code elem
card-Named = refl

resolve_conflict_repeats_example :
    let r = (decide 3 (seen 9 3000) (card ∷ []) clashed).0 in
    (r.conflict ≡ true) × (r.created ≡ true) × (r.asset ≡ 3)
unfolding strong_kind
resolve_conflict_repeats_example =
    resolve_conflict_repeats 2 (seen 8 2000) both known clashed clash asset_identity_conflict
      clash_resolution refl refl card (Memᴰ.head refl) refl 1 card-Named 3 (seen 9 3000) (card ∷ [])
      card (Memᴰ.head refl) refl refl

clash_asset : Memᴰ (record (new_asset 2 (seen 8 2000) true) { status = active }) clashed.assets
unfolding add_identifiers add_identifier
clash_asset = Memᴰ.tail (Memᴰ.head refl)

card-Named-clashed : (Named 1 card clashed) × (Named 2 card clashed)
unfolding find_assets_by_identifier assets_named kind_code elem add_identifiers add_identifier
    upsert_identifier strong_kind
card-Named-clashed = (refl, refl)

decide_conflict_example :
    let r = (decide 3 (seen 9 3000) (card ∷ []) clashed).0 in
    (r.conflict ≡ true) × (r.created ≡ true) × (r.asset ≡ 3)
unfolding strong_kind
decide_conflict_example =
    decide_conflict 3 (seen 9 3000) (card ∷ []) clashed card 1 2 (Memᴰ.head refl) refl
      card-Named-clashed.0 card-Named-clashed.1 (omega arith)
