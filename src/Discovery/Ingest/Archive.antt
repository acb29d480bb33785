-- ===== src/Discovery/Ingest/Archive.antt =====
-- internal/discovery/scanner.go: that ingesting changes no observation that is stored.
use corta_sentry.Prelude.{
  ◌++◌, false, Bool, ℕ, ◌+◌, ◌≡◌, refl, ◌∙◌, ◌||◌, some, List, [], ◌∷◌, map, inl, inr, Bool-cases,
  Option-cases, if◌then◌else◌, length, Text,
}
use corta_sentry.Fingerprint.Model.{Candidate}
use corta_sentry.Records.Observations.{Observation, source_eq, http}
use corta_sentry.Records.Changes.{ChangeEvent}
use corta_sentry.Discovery.Store.{ScanStore, Resolved, Supplied, Classification}
use corta_sentry.Discovery.Changes.{http_change, endpoint_changes}
use corta_sentry.Discovery.Result.{
  ScanResult, Deriver, counted, class_eq, recent_of, http_of, or_empty, supplied, evidence_of,
  or_no_class, or_same,
}
use corta_sentry.Discovery.Ingest.{
  attach_all, record_changes, record_candidates, note_first_seen, detect_endpoint_changes,
  detect_http_changes, classify, derive, ingest_stored, class_of, class_change,
}

-- What an archive promises, where `stored` reads its rows of observations: AddObservation appends
-- the row that it answers, and no other operation touches a row.
pub record IsArchive {T : Type 0} (store : ScanStore T) (stored : T → List Observation)
    : Type 0 where
  pub adds :
      (o row : Observation) (t u : T)
      → store.add_observation o t ≡ some (row, u)
      → stored u ≡ stored t ++ row ∷ []
  pub keeps_candidate :
      (asset : ℕ) (c : Candidate) (t u : T)
      → store.add_candidate asset c t ≡ some u
      → stored u ≡ stored t
  pub keeps_change :
      (c : ChangeEvent) (t u : T) → store.add_change c t ≡ some u → stored u ≡ stored t
  pub keeps_class :
      (asset : ℕ) (c : Classification) (score : ℕ) (t u : T)
      → store.update_classification asset c score t ≡ some u
      → stored u ≡ stored t
  pub keeps_link :
      (asset : ℕ) (o : Observation) (conflict : Bool) (t u : T)
      → store.attach_observation asset o conflict t ≡ some u
      → stored u ≡ stored t
  pub keeps_resolve :
      (o : Observation) (ids : List Supplied) (t : T) → stored (store.resolve o ids t).1 ≡ stored t

module _ (d : Deriver) {T : Type 0} (store : ScanStore T) (stored : T → List Observation)
    (laws : IsArchive store stored) (now : ℕ) where
  changes-stored :
      (cs : List ChangeEvent) (st : ScanResult × T)
      → stored (record_changes d store now cs st).1 ≡ stored st.1
  unfolding record_changes
  changes-stored [] (r, t) = refl
  changes-stored (c ∷ cs) (r, t) = elim (Option-cases (store.add_change c t)) [
    | inl n ↦ rw (n, record_changes) (changes-stored cs (r, t))
    | inr (u, e) ↦
        rw (e, record_changes)
          (changes-stored cs (record r { changes = r.changes + 1 }, u) ∙ laws.keeps_change c t u e)
  ]

  candidates-stored :
      (asset : ℕ) (cs : List Candidate) (st : ScanResult × T)
      → stored (record_candidates d store now asset cs st).1 ≡ stored st.1
  unfolding record_candidates
  candidates-stored asset [] (r, t) = refl
  candidates-stored asset (c ∷ cs) (r, t) = elim (Option-cases (store.add_candidate asset c t)) [
    | inl n ↦ rw (n, record_candidates) (candidates-stored asset cs (r, t))
    | inr (u, e) ↦
        rw (e, record_candidates)
          (candidates-stored asset cs (record r { candidates = r.candidates + 1 }, u)
            ∙ laws.keeps_candidate asset c t u e)
  ]

  endpoint-stored :
      (asset : ℕ) (batch : List Observation) (st : ScanResult × T)
      → stored (detect_endpoint_changes d store now asset batch st).1 ≡ stored st.1
  unfolding detect_endpoint_changes
  endpoint-stored asset batch (r, t) =
      elim (Option-cases (store.list_observations (recent_of asset) t)) [
        | inl n ↦ rw (n, detect_endpoint_changes) refl
        | inr (os, e) ↦
            rw (e, detect_endpoint_changes)
              (changes-stored (endpoint_changes d.encoders asset now batch os batch) (r, t))
      ]

  http-stored :
      (asset : ℕ) (os : List Observation) (st : ScanResult × T)
      → stored (detect_http_changes d store now asset os st).1 ≡ stored st.1
  unfolding detect_http_changes
  http-stored asset [] st = refl
  http-stored asset (o ∷ os) st =
      let found =
        http_change d.encoders asset now
          (or_empty (store.list_observations (http_of asset) st.1)) in
      let st' = record_changes d store now found st in
      elim (Bool-cases (source_eq o.source http)) [
        | inl y ↦ rw (y, detect_http_changes) (http-stored asset os st' ∙ changes-stored found st)
        | inr n ↦ rw (n, detect_http_changes) (http-stored asset os st)
      ]

  class-stored :
      (asset : ℕ) (c : Classification) (score : ℕ) (t : T)
      → stored (or_same t (store.update_classification asset c score t)) ≡ stored t
  class-stored asset c score t = elim (Option-cases (store.update_classification asset c score t)) [
    | inl n ↦ rw n refl
    | inr (u, e) ↦ rw e (laws.keeps_class asset c score t u e)
  ]

  classify-stored :
      (x : Resolved) (cs : List Candidate) (st : ScanResult × T)
      → stored (classify d store now x cs st).1 ≡ stored st.1
  unfolding classify
  classify-stored x [] st = refl
  classify-stored x (c ∷ cs) (r, t) =
      let previous = or_no_class (store.get_classification x.asset_id t) in
      let class = class_of d store now c cs in
      let t' = or_same t (store.update_classification x.asset_id class c.score t) in
      let k = class-stored x.asset_id class c.score t in
      elim (Bool-cases (x.created || class_eq previous class)) [
        | inl y ↦ rw (y, classify) k
        | inr n ↦
            rw (n, classify)
              (changes-stored (class_change d store now x.asset_id c cs previous ∷ []) (r, t') ∙ k)
      ]

  first-stored : (c : ChangeEvent) (t : T) → stored (or_same t (store.add_change c t)) ≡ stored t
  first-stored c t = elim (Option-cases (store.add_change c t)) [
    | inl n ↦ rw n refl
    | inr (u, e) ↦ rw e (laws.keeps_change c t u e)
  ]

  note-stored :
      (asset : ℕ) (o : Observation) (st : ScanResult × T)
      → stored (note_first_seen d store now asset o st).1 ≡ stored st.1
  unfolding note_first_seen
  note-stored asset o (r, t) = first-stored _ t

  derive-stored :
      (x : Resolved) (o : Observation) (batch : List Observation) (st : ScanResult × T)
      → stored (derive d store now x o batch st).1 ≡ stored st.1
  unfolding derive
  derive-stored x o batch st =
      let st1 =
        if x.created
        then note_first_seen d store now x.asset_id o st
        else detect_endpoint_changes d store now x.asset_id batch st in
      let k1 : stored st1.1 ≡ stored st.1 = elim (Bool-cases x.created) [
        | inl y ↦ rw y (note-stored x.asset_id o st)
        | inr n ↦ rw n (endpoint-stored x.asset_id batch st)
      ] in
      let cs =
        d.evaluate x.asset_id
          (map (evidence_of d) (or_empty (store.list_observations (recent_of x.asset_id) st1.1))) in
      let st2 = record_candidates d store now x.asset_id cs st1 in
      http-stored x.asset_id batch (classify d store now x cs st2)
      ∙ classify-stored x cs st2
      ∙ candidates-stored x.asset_id cs st1
      ∙ k1

  attach-stored :
      (asset : ℕ) (os : List Observation) (t : T)
      → stored (attach_all d store now asset os t).1 ≡ stored t
  unfolding attach_all
  attach-stored asset [] t = refl
  attach-stored asset (o ∷ os) t = elim (Option-cases (store.attach_observation asset o false t)) [
    | inl n ↦ rw (n, attach_all) refl
    | inr (u, e) ↦
        rw (e, attach_all) (attach-stored asset os u ∙ laws.keeps_link asset o false t u e)
  ]

  pub ingest_stored-stored :
      (strong_id : Text) (batch : List Observation) (st : ScanResult × T)
      → stored (ingest_stored d store now strong_id batch st).1 ≡ stored st.1
  unfolding ingest_stored
  ingest_stored-stored strong_id [] st = refl
  ingest_stored-stored strong_id (o ∷ os) (r, t) =
      let q = store.resolve o (supplied d (o ∷ os) strong_id) t in
      let k = laws.keeps_resolve o (supplied d (o ∷ os) strong_id) t in
      elim (Option-cases q.0) [
        | inl n ↦ rw (n, ingest_stored) k
        | inr (x, e) ↦
            let a = attach_all d store now x.asset_id os q.1 in
            let j = attach-stored x.asset_id os q.1 ∙ k in
            elim (Bool-cases a.0) [
              | inl y ↦
                  rw (e, y, ingest_stored)
                    (derive-stored x o (o ∷ os) (counted x (length (o ∷ os)) r, a.1) ∙ j)
              | inr n ↦ rw (e, n, ingest_stored) j
            ]
      ]
