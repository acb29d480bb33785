-- ===== src/Discovery/Ingest/Counts.antt =====
-- internal/discovery/scanner.go: what ingestBatch counts, over any store.
use corta_sentry.Prelude.{
  ℕ, ◌+◌, ◌≤◌, ◌≡◌, refl, subst, ◌||◌, some, List, [], ◌∷◌, map, arith, inl, inr, Bool-cases,
  Option-cases, if◌then◌else◌, length, Text,
}
use corta_sentry.Fingerprint.Model.{Candidate}
use corta_sentry.Records.Observations.{Observation, source_eq, http}
use corta_sentry.Records.Changes.{ChangeEvent}
use corta_sentry.Discovery.Store.{ScanStore, Resolved}
use corta_sentry.Discovery.Changes.{http_change, endpoint_changes}
use corta_sentry.Discovery.Result.{
  ScanResult, Deriver, failed, counted, class_eq, recent_of, http_of, or_empty, supplied,
  evidence_of, or_no_class, or_same,
}
use corta_sentry.Discovery.Ingest.{
  add_all, attach_all, record_changes, record_candidates, note_first_seen, detect_endpoint_changes,
  detect_http_changes, classify, derive, ingest_stored, ingest_batch, class_of, class_change,
}

-- A result that has gained changes and candidates only.
pub record Gains (r s : ScanResult) : Type 0 where
  pub observations : s.observations ≡ r.observations
  pub assets : s.assets ≡ r.assets
  pub errors : s.errors ≡ r.errors
  pub asset_ids : s.asset_ids ≡ r.asset_ids
  pub changes : r.changes ≤ s.changes
  pub candidates : r.candidates ≤ s.candidates

Gains-refl : (r : ScanResult) → Gains r r
Gains-refl r = record {
  observations = refl;
  assets = refl;
  errors = refl;
  asset_ids = refl;
  changes = omega arith;
  candidates = omega arith;
}

Gains-trans : (r s u : ScanResult) → Gains r s → Gains s u → Gains r u
Gains-trans r s u g h = ground arith

-- What a batch of `n` observations makes of a result: either one more error, and nothing else;
-- or the batch counted for one asset.
pub data IsCounted (n : ℕ) (r s : ScanResult) : Type 0 where
  as_failed : s ≡ failed r → IsCounted n r s
  as_attached :
      (x : Resolved)
      → Gains (counted x n r) s
      → r.changes + (if x.created then 1 else 0) ≤ s.changes
      → IsCounted n r s

module _ (d : Deriver) {T : Type 0} (store : ScanStore T) (now : ℕ) where
  changes-Gains :
      (cs : List ChangeEvent) (st : ScanResult × T)
      → Gains st.0 (record_changes d store now cs st).0
  unfolding record_changes
  changes-Gains [] (r, t) = Gains-refl r
  changes-Gains (c ∷ cs) (r, t) = elim (Option-cases (store.add_change c t)) [
    | inl n ↦ rw (n, record_changes) (changes-Gains cs (r, t))
    | inr (u, e) ↦
        rw (e, record_changes)
          (Gains-trans r (record r { changes = r.changes + 1 }) _ (ground arith)
            (changes-Gains cs (record r { changes = r.changes + 1 }, u)))
  ]

  candidates-Gains :
      (asset : ℕ) (cs : List Candidate) (st : ScanResult × T)
      → Gains st.0 (record_candidates d store now asset cs st).0
  unfolding record_candidates
  candidates-Gains asset [] (r, t) = Gains-refl r
  candidates-Gains asset (c ∷ cs) (r, t) = elim (Option-cases (store.add_candidate asset c t)) [
    | inl n ↦ rw (n, record_candidates) (candidates-Gains asset cs (r, t))
    | inr (u, e) ↦
        rw (e, record_candidates)
          (Gains-trans r (record r { candidates = r.candidates + 1 }) _ (ground arith)
            (candidates-Gains asset cs (record r { candidates = r.candidates + 1 }, u)))
  ]

  endpoint-Gains :
      (asset : ℕ) (batch : List Observation) (st : ScanResult × T)
      → Gains st.0 (detect_endpoint_changes d store now asset batch st).0
  unfolding detect_endpoint_changes
  endpoint-Gains asset batch (r, t) =
      elim (Option-cases (store.list_observations (recent_of asset) t)) [
        | inl n ↦ rw (n, detect_endpoint_changes) (Gains-refl r)
        | inr (os, e) ↦
            rw (e, detect_endpoint_changes)
              (changes-Gains (endpoint_changes d.encoders asset now batch os batch) (r, t))
      ]

  http-Gains :
      (asset : ℕ) (os : List Observation) (st : ScanResult × T)
      → Gains st.0 (detect_http_changes d store now asset os st).0
  unfolding detect_http_changes
  http-Gains asset [] st = Gains-refl st.0
  http-Gains asset (o ∷ os) st =
      let found =
        http_change d.encoders asset now
          (or_empty (store.list_observations (http_of asset) st.1)) in
      let st' = record_changes d store now found st in
      elim (Bool-cases (source_eq o.source http)) [
        | inl y ↦
            rw (y, detect_http_changes)
              (Gains-trans st.0 st'.0 _ (changes-Gains found st) (http-Gains asset os st'))
        | inr n ↦ rw (n, detect_http_changes) (http-Gains asset os st)
      ]

  classify-Gains :
      (x : Resolved) (cs : List Candidate) (st : ScanResult × T)
      → Gains st.0 (classify d store now x cs st).0
  unfolding classify
  classify-Gains x [] st = Gains-refl st.0
  classify-Gains x (c ∷ cs) (r, t) =
      let previous = or_no_class (store.get_classification x.asset_id t) in
      let class = class_of d store now c cs in
      let t' = or_same t (store.update_classification x.asset_id class c.score t) in
      elim (Bool-cases (x.created || class_eq previous class)) [
        | inl y ↦ rw (y, classify) (Gains-refl r)
        | inr n ↦
            rw (n, classify)
              (changes-Gains (class_change d store now x.asset_id c cs previous ∷ []) (r, t'))
      ]

  first-Gains :
      (asset : ℕ) (o : Observation) (st : ScanResult × T)
      → Gains st.0 (note_first_seen d store now asset o st).0
        × ((note_first_seen d store now asset o st).0.changes ≡ st.0.changes + 1)
  unfolding note_first_seen
  first-Gains asset o (r, t) = (ground arith, refl)

  abbrev opened : Resolved → Observation → List Observation → ScanResult × T → ScanResult × T
  opened x o batch st =
      if x.created
      then note_first_seen d store now x.asset_id o st
      else detect_endpoint_changes d store now x.asset_id batch st

  opened-Gains :
      (x : Resolved) (o : Observation) (batch : List Observation) (st : ScanResult × T)
      → Gains st.0 (opened x o batch st).0
        × (st.0.changes + (if x.created then 1 else 0) ≤ (opened x o batch st).0.changes)
  opened-Gains x o batch st = elim (Bool-cases x.created) [
    | inl y ↦ rw y (let (f, n) = first-Gains x.asset_id o st in (f, omega (arith, n)))
    | inr n ↦ rw n (let f = endpoint-Gains x.asset_id batch st in (f, omega (arith, f.changes)))
  ]

  -- A batch on a new asset also gains the change that says so.
  derive-Gains :
      (x : Resolved) (o : Observation) (batch : List Observation) (st : ScanResult × T)
      → let r' = (derive d store now x o batch st).0 in
        Gains st.0 r' × (st.0.changes + (if x.created then 1 else 0) ≤ r'.changes)
  unfolding derive
  derive-Gains x o batch st =
      let st1 = opened x o batch st in
      let cs =
        d.evaluate x.asset_id
          (map (evidence_of d) (or_empty (store.list_observations (recent_of x.asset_id) st1.1))) in
      let st2 = record_candidates d store now x.asset_id cs st1 in
      let st3 = classify d store now x cs st2 in
      let st4 = detect_http_changes d store now x.asset_id batch st3 in
      let (g1, n) = opened-Gains x o batch st in
      let g2 =
        Gains-trans st1.0 st2.0 st3.0 (candidates-Gains x.asset_id cs st1)
          (classify-Gains x cs st2) in
      let g = Gains-trans st1.0 st3.0 st4.0 g2 (http-Gains x.asset_id batch st3) in
      (Gains-trans st.0 st1.0 st4.0 g1 g, omega (arith, n, g.changes))

  pub stored-IsCounted :
      (strong_id : Text) (o : Observation) (os : List Observation) (r : ScanResult) (t : T)
      → IsCounted (length (o ∷ os)) r (ingest_stored d store now strong_id (o ∷ os) (r, t)).0
  unfolding ingest_stored counted
  stored-IsCounted strong_id o os r t =
      let q = store.resolve o (supplied d (o ∷ os) strong_id) t in
      elim (Option-cases q.0) [
        | inl n ↦ rw (n, ingest_stored) (as_failed refl)
        | inr (x, e) ↦
            let a = attach_all d store now x.asset_id os q.1 in
            let g = derive-Gains x o (o ∷ os) (counted x (length (o ∷ os)) r, a.1) in
            elim (Bool-cases a.0) [
              | inl y ↦ rw (e, y, ingest_stored) (as_attached x g.0 g.1)
              | inr n ↦ rw (e, n, ingest_stored) (as_failed refl)
            ]
      ]

  length-add_all :
      (os : List Observation) (t : T) {rows : List Observation}
      → (add_all d store now os t).0 ≡ some rows
      → length rows ≡ length os
  unfolding add_all
  length-add_all [] t e = ground arith
  length-add_all (o ∷ os) t {rows} e = elim (Option-cases (store.add_observation o t)) [
    | inl n ↦ absurd (ground arith)
    | inr ((row, u), h) ↦ elim (Option-cases (add_all d store now os u).0) [
      | inl n ↦ absurd (ground arith)
      | inr (rest, k) ↦ ground (arith, length-add_all os u {rows = rest} k)
    ]
  ]

  -- Whatever the store does, ingesting a batch either adds one error and changes no other count, or
  -- counts every observation of the batch for one asset, a new one with a change at least, and no
  -- error.
  pub ingest_batch-IsCounted :
      (strong_id : Text) (o : Observation) (os : List Observation) (r : ScanResult) (t : T)
      → IsCounted (length (o ∷ os)) r (ingest_batch d store now strong_id (o ∷ os) (r, t)).0
  unfolding ingest_batch
  ingest_batch-IsCounted strong_id o os r t =
      let a = add_all d store now (o ∷ os) t in
      elim (Option-cases a.0) [
        | inl n ↦ rw (n, ingest_batch) (as_failed refl)
        | inr ([], e) ↦ absurd (omega (arith, length-add_all (o ∷ os) t e))
        | inr (row ∷ rows, e) ↦
            rw (e, ingest_batch)
              (subst
                (λ (n : ℕ).
                  IsCounted n r (ingest_stored d store now strong_id (row ∷ rows) (r, a.1)).0)
                (length-add_all (o ∷ os) t e) (stored-IsCounted strong_id row rows r a.1))
      ]
