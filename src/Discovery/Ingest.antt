-- ===== src/Discovery/Ingest.antt =====
-- internal/discovery/scanner.go: ingestBatch, over any store with the operations of ScanStore. The
-- locks of the shared result are left out: a batch is counted as one step.
pub mod Counts
pub mod Archive
use corta_sentry.Prelude.{
  ℕ, ◌+◌, ◌-◌, Bool, true, false, ◌&&◌, ◌||◌, not, Option, none, some, List, [], ◌∷◌, ◌++◌, map,
  list_eq, if◌then◌else◌, ◌==◌, any, Text, length, elem, sort_by, Result, ok, err, ltb,
}
use corta_sentry.Prelude.Bytes.{is_nil}
use corta_sentry.Jobs.Stamp.{text_less}
use corta_sentry.Scope.Address.{Addr}
use corta_sentry.Assets.Inventory.{service_set, agent_enrollment_id, strong, contextual}
use corta_sentry.Fingerprint.Model.{Candidate}
use corta_sentry.Fingerprint.Rank.{is_ambiguous}
use corta_sentry.Records.Observations.{
  Observation, ObservationQuery, Source, source_code, source_eq, http, tcp_connect, banner,
}
use corta_sentry.Records.Changes.{ChangeEvent, asset_first_seen, classification_changed}
use corta_sentry.Discovery.Store.{ScanStore, Classification, Supplied, Resolved}
use corta_sentry.Discovery.Changes.{Encoders, change_of, endpoint_changes, http_change}
use corta_sentry.Discovery.Result.{
  Deriver, ScanResult, class_eq, counted, evidence_of, failed, http_of, no_result, or_empty,
  or_no_class, or_same, recent_of, supplied,
}

module _ (d : Deriver) where
  module _ {T : Type 0} (store : ScanStore T) (now : ℕ) where
    abbrev pub Scan : Type 0
    Scan = ScanResult × T

    unfoldable pub add_all : List Observation → T → Option (List Observation) × T
    add_all [] t = (some [], t)
    add_all (o ∷ os) t = elim (store.add_observation o t) [
      | none ↦ (none, t)
      | some (row, t') ↦
          (let rest = add_all os t' in
            (elim rest.0 [ none ↦ none | some rows ↦ some (row ∷ rows) ], rest.1))
    ]

    unfoldable pub attach_all : ℕ → List Observation → T → Bool × T
    attach_all asset [] t = (true, t)
    attach_all asset (o ∷ os) t = elim (store.attach_observation asset o false t) [
      | none ↦ (false, t)
      | some t' ↦ attach_all asset os t'
    ]

    -- `if AddChange(...) == nil { result.Changes++ }`, for each change.
    unfoldable pub record_changes : List ChangeEvent → Scan → Scan
    record_changes [] st = st
    record_changes (c ∷ cs) (r, t) = elim (store.add_change c t) [
      | none ↦ record_changes cs (r, t)
      | some t' ↦ record_changes cs (record r { changes = r.changes + 1 }, t')
    ]

    unfoldable pub record_candidates : ℕ → List Candidate → Scan → Scan
    record_candidates asset [] st = st
    record_candidates asset (c ∷ cs) (r, t) = elim (store.add_candidate asset c t) [
      | none ↦ record_candidates asset cs (r, t)
      | some t' ↦ record_candidates asset cs (record r { candidates = r.candidates + 1 }, t')
    ]

    -- The change of a new asset, counted whether or not it could be stored.
    unfoldable pub note_first_seen : ℕ → Observation → Scan → Scan
    note_first_seen asset o (r, t) =
        let c =
          change_of asset_first_seen asset now d.encoders.null_json
            (d.encoders.address_json o.target) (o.id ∷ []) in
        (record r { changes = r.changes + 1 }, or_same t (store.add_change c t))

    -- detectEndpointChanges.
    unfoldable pub detect_endpoint_changes : ℕ → List Observation → Scan → Scan
    unfolding record_changes
    detect_endpoint_changes asset batch st = elim (store.list_observations (recent_of asset) st.1) [
      | none ↦ st
      | some recent ↦ record_changes (endpoint_changes d.encoders asset now batch recent batch) st
    ]

    -- detectHTTPChange, for each HTTP observation of the batch.
    unfoldable pub detect_http_changes : ℕ → List Observation → Scan → Scan
    unfolding record_changes
    detect_http_changes asset [] st = st
    detect_http_changes asset (o ∷ os) st =
        let found =
          http_change d.encoders asset now
            (or_empty (store.list_observations (http_of asset) st.1)) in
        detect_http_changes asset os
          (if source_eq o.source http then record_changes found st else st)

    abbrev pub class_of : Candidate → List Candidate → Classification
    class_of c cs = record (d.columns_of c.rule_id) {
      ambiguous = is_ambiguous d.ambiguity_delta (c ∷ cs);
    }

    abbrev pub class_change : ℕ → Candidate → List Candidate → Classification → ChangeEvent
    class_change asset c cs previous =
        change_of classification_changed asset now (d.encoders.class_json previous)
          (d.encoders.class_json (class_of c cs)) c.observation_ids

    -- The classification by the best candidate, and its change.
    unfoldable pub classify : Resolved → List Candidate → Scan → Scan
    unfolding record_changes
    classify x [] st = st
    classify x (c ∷ cs) (r, t) =
        let previous = or_no_class (store.get_classification x.asset_id t) in
        let t' = or_same t (store.update_classification x.asset_id (class_of c cs) c.score t) in
        if x.created || class_eq previous (class_of c cs)
        then (r, t')
        else record_changes (class_change x.asset_id c cs previous ∷ []) (r, t')

    -- The second half of ingestBatch.
    unfoldable pub derive : Resolved → Observation → List Observation → Scan → Scan
    unfolding note_first_seen detect_endpoint_changes record_candidates classify detect_http_changes
    derive x o batch st =
        let st1 =
          if x.created
          then note_first_seen x.asset_id o st
          else detect_endpoint_changes x.asset_id batch st in
        let cs =
          d.evaluate x.asset_id (
            map (evidence_of d)
              (or_empty (store.list_observations (recent_of x.asset_id) st1.1))) in
        let st2 = record_candidates x.asset_id cs st1 in
        detect_http_changes x.asset_id batch (classify x cs st2)

    -- ingestBatch after the observations are stored.
    unfoldable pub ingest_stored : Text → List Observation → Scan → Scan
    unfolding derive attach_all
    ingest_stored strong_id [] st = st
    ingest_stored strong_id (o ∷ os) (r, t) =
        let q = store.resolve o (supplied d (o ∷ os) strong_id) t in
        elim q.0 [
          | none ↦ (failed r, q.1)
          | some x ↦
              (let a = attach_all x.asset_id os q.1 in
                if a.0
                then derive x o (o ∷ os) (counted x (length (o ∷ os)) r, a.1)
                else (failed r, a.1))
        ]

    -- ingestBatch.
    unfoldable pub ingest_batch : Text → List Observation → Scan → Scan
    unfolding ingest_stored add_all
    ingest_batch strong_id batch (r, t) =
        let a = add_all batch t in
        elim a.0 [ none ↦ (failed r, a.1) | some rows ↦ ingest_stored strong_id rows (r, a.1) ]

    -- IngestObservations: the result, and whether it is an error.
    unfoldable pub ingest_observations : Text → List Observation → T → ScanResult × Bool × T
    unfolding ingest_batch
    ingest_observations strong_id batch t =
        let s = ingest_batch strong_id batch (no_result, t) in (s.0, ltb 0 s.0.errors, s.1)
