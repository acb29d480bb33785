-- ===== src/Findings/Upsert.antt =====
-- internal/storage/sqlite/store.go: what UpsertFinding stores.
use corta_sentry.Prelude.{
  ℕ, ◌≡◌, refl, ◌∙◌, Bool, true, false, Option, none, some, [], ◌∷◌, ◌++◌, arith, ◌==◌, str_eq_iff,
  if◌then◌else◌, Option-cases, Bool-cases, inl, inr, first, first-update_where, first-append,
}
use corta_sentry.Findings.Table.{
  FindingRow, FindingTables, is_about, refreshed, note, upsert_finding, state_code, filled,
  violates,
}

-- The row of the asset and the advisory of a finding.
abbrev pub the_finding : FindingRow → FindingTables → Option FindingRow
the_finding f t = first (is_about f.finding.asset_id f.finding.advisory_id) t.findings

about_self :
    (f row : FindingRow)
    → row.finding.asset_id ≡ f.finding.asset_id
    → row.finding.advisory_id ≡ f.finding.advisory_id
    → is_about f.finding.asset_id f.finding.advisory_id row ≡ true
about_self f row a e = ground (arith, str_eq_iff row.finding.advisory_id f.finding.advisory_id)

module _ (known : ℕ → Bool) (fresh now : ℕ) (f : FindingRow) (t : FindingTables) where
  abbrev filled_row : FindingRow
  filled_row = filled fresh now f

  -- What an upsert comes to: an error, a new row, or a row that is refreshed.
  pub data IsUpserted : Option (Bool × FindingTables) → Type 0 where
    is_refused :
        the_finding f t ≡ none → violates known filled_row t.findings ≡ true → IsUpserted none
    is_created :
        (u : FindingTables)
        → the_finding f t ≡ none
        → violates known filled_row t.findings ≡ false
        → the_finding f u ≡ some filled_row
        → u.history ≡ t.history ++ note filled_row.id now none f.finding.state ∷ []
        → IsUpserted (some (true, u))
    is_refreshed :
        (r : FindingRow) (u : FindingTables)
        → the_finding f t ≡ some r
        → the_finding f u ≡ some (refreshed filled_row r)
        → u.history ≡ (
            if state_code r.finding.state == state_code f.finding.state
            then t.history
            else t.history ++ note r.id now (some r.finding.state) f.finding.state ∷ [])
        → IsUpserted (some (false, u))

  -- If there is no row for the asset and advisory of a finding, an upsert fails where the row would
  -- violate a key, or else stores the finding with what the caller leaves out filled in and with
  -- the caller's disposition, and answers that it is new. If there is one, the upsert replaces its
  -- data and keeps its identifier, first sighting and disposition. The history gets an entry
  -- exactly if the row is new or its state changes.
  pub upsert_finding_lem : IsUpserted (upsert_finding known fresh now f t)
  unfolding upsert_finding
  upsert_finding_lem =
      let p = is_about f.finding.asset_id f.finding.advisory_id in
      elim (Option-cases (the_finding f t)) [
        | inl n ↦ elim (Bool-cases (violates known filled_row t.findings)) [
          | inl v ↦ rw (n, v, upsert_finding) (is_refused n v)
          | inr k ↦
              rw (n, k, upsert_finding)
                (is_created _ n k
                  (first-append p t.findings filled_row n (about_self f filled_row refl refl)) refl)
        ]
        | inr (r, e) ↦
            let q : FindingRow → Bool = λ x. x.id == r.id in
            let u = first-update_where p q (refreshed filled_row) t.findings (λ x. refl) in
            rw (e, upsert_finding) (is_refreshed r _ e (u ∙ rw e (ground arith)) refl)
      ]
