-- ===== src/Assets/Merge.antt =====
-- internal/storage/sqlite/store.go: MergeAssets, on all the tables that it changes.
pub mod Names
pub mod Moves
use corta_sentry.Prelude.{
  ℕ, suc, Bool, true, false, ◌&&◌, ◌||◌, not, Option, none, some, List, [], ◌∷◌, ◌++◌, any, length,
  ◌==◌, if◌then◌else◌, Result, ok, err, String, str_eq, update_where, delete_where,
}
use corta_sentry.Assets.Inventory.{
  Asset, merged, IdRow, AddressRow, LinkRow, Inventory, is_none, is_strong, kind_eq,
  same_identifier,
}
use corta_sentry.Findings.Rules.{Finding}
use corta_sentry.Findings.Table.{FindingRow, HistoryRow, FindingTables, is_about}

-- A row of fingerprint_candidates or change_events, as far as the merge reads it.
pub record OwnedRow : Type 0 where
  pub id : ℕ
  pub asset : ℕ

pub record Ledger : Type 0 where
  pub inventory : Inventory
  pub candidates : List OwnedRow
  pub changes : List OwnedRow
  pub findings : FindingTables

pub data MergeError : Type 0 where
  invalid_merge_ids assets_missing strong_conflict : MergeError

-- SELECT count(*) FROM assets WHERE id IN (?,?) AND merged_into IS NULL
unfoldable pub unmerged_count : ℕ → ℕ → List Asset → ℕ
unmerged_count source target [] = 0
unmerged_count source target (a ∷ rest) =
    let n = unmerged_count source target rest in
    if (a.id == source || a.id == target) && is_none a.merged_into then suc n else n

-- A strong row of the target with the kind of a strong row of the source, and another value.
abbrev pub disagrees : ℕ → IdRow → IdRow → Bool
disagrees target r s =
    s.asset == target
    && (kind_eq s.ident.kind r.ident.kind
        && (not (s.ident.value == r.ident.value) && is_strong s.ident.strength))

abbrev pub conflicting : ℕ → ℕ → List IdRow → Bool
conflicting source target rows =
    any (λ r. r.asset == source && is_strong r.ident.strength && any (disagrees target r) rows) rows

-- INSERT OR IGNORE ... SELECT ... WHERE asset_id=source, row by row: a row whose key is there is
-- passed over.
unfoldable pub copy_identifiers : ℕ → ℕ → List IdRow → List IdRow → List IdRow
copy_identifiers source target [] out = out
copy_identifiers source target (r ∷ rows) out = copy_identifiers source target rows (
    if r.asset == source && not (any (same_identifier target r.ident) out)
    then out ++ record r { asset = target } ∷ []
    else out)

unfoldable pub copy_addresses : ℕ → ℕ → List AddressRow → List AddressRow → List AddressRow
copy_addresses source target [] out = out
copy_addresses source target (r ∷ rows) out = copy_addresses source target rows (
    if r.asset == source && not (any (λ s. s.asset == target && s.address == r.address) out)
    then out ++ record r { asset = target } ∷ []
    else out)

unfoldable pub copy_links : ℕ → ℕ → List LinkRow → List LinkRow → List LinkRow
copy_links source target [] out = out
copy_links source target (r ∷ rows) out = copy_links source target rows (
    if r.asset == source && not (any (λ s. s.asset == target && s.observation == r.observation) out)
    then out ++ record r { asset = target; manual_merge = true } ∷ []
    else out)

-- UPDATE ... SET asset_id=target WHERE asset_id=source
unfoldable pub move_owned : ℕ → ℕ → List OwnedRow → List OwnedRow
move_owned source target rows =
    update_where (λ r. r.asset == source) (λ r. record r { asset = target }) rows

-- The loop over the findings of the source, read at its start.
unfoldable pub move_findings : ℕ → ℕ → List FindingRow → FindingTables → FindingTables
move_findings source target [] t = t
move_findings source target (r ∷ rows) t = move_findings source target rows (
    if not (r.finding.asset_id == source)
    then t
    else if any (is_about target r.finding.advisory_id) t.findings
    then record {
      findings = delete_where (λ x. x.id == r.id) t.findings;
      history = delete_where (λ x. x.finding_id == r.id) t.history;
    }
    else record t {
      findings =
          update_where (λ x. x.id == r.id)
            (λ x. record x { finding = record x.finding { asset_id = target } }) t.findings;
    })

-- MergeAssets.
unfoldable pub merge_assets : ℕ → ℕ → Ledger → Result MergeError (Unit {0}) × Ledger
merge_assets source target l =
    let inv = l.inventory in
    if source == target || (source == 0 || target == 0)
    then (err invalid_merge_ids, l)
    else if not (unmerged_count source target inv.assets == 2)
    then (err assets_missing, l)
    else if conflicting source target inv.identifiers
    then (err strong_conflict, l)
    else (
      ok tt,
      record {
        inventory = record {
          assets =
              update_where (λ (a : Asset). a.id == source)
                (λ (a : Asset). record a { merged_into = some target; status = merged }) inv.assets;
          addresses = copy_addresses source target inv.addresses inv.addresses;
          identifiers = copy_identifiers source target inv.identifiers inv.identifiers;
          links =
              delete_where (λ (r : LinkRow). r.asset == source)
                (copy_links source target inv.links inv.links);
        };
        candidates = move_owned source target l.candidates;
        changes = move_owned source target l.changes;
        findings = move_findings source target l.findings.findings l.findings;
      },
    )
