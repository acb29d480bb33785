-- ===== src/Api/Scans.antt =====
-- internal/api/api.go: the handlers scan, cancel, merge and patchFinding.
pub mod Outcome
use corta_sentry.Prelude.{
  ℕ, ◌*◌, Bool, true, false, not, Option, none, some, List, [], ◌∷◌, Result, ok, err, Text, length,
  if◌then◌else◌,
}
use corta_sentry.Scope.Address.{Addr, NetText}
use corta_sentry.Scope.Engine.{Engine, World, JobError}
use corta_sentry.Scope.Job.{validate_job}
use corta_sentry.Jobs.Model.{Job, NewJob, discovery}
use corta_sentry.Jobs.Table.{cancel_job}
use corta_sentry.Jobs.Manager.{Queue, enqueue_with_key}
use corta_sentry.Findings.Table.{FindingTables, Disposition}
use corta_sentry.Assets.Merge.{Ledger}
use corta_sentry.Service.{
  Principal, Log, ServiceState, ServiceError, jobs_unavailable, event, scan_create, denied,
  accepted, audit_quietly, cancel_scan, merge, set_finding_disposition,
}

-- The decoded body of a scan request.
pub record ScanBody : Type 0 where
  pub targets : List Text
  pub ports : List ℕ

-- The answers: 429, 400, 403, 503, 500, 503 and 202.
pub data ScanReply : Type 0 where
  rate_limited invalid_request no_manager storage_error audit_unavailable : ScanReply
  scope_denied : JobError → ScanReply
  created : Job → ScanReply

module _ {L : Type 0} (record_event : Log L) (net : NetText) {S : Type 0} (e : Engine S)
    (marshal : ScanBody → Text) where
  -- The job of a request: its payload is the request as it was sent, and its key is empty.
  abbrev pub body_job : ScanBody → List Addr → List ℕ → NewJob
  body_job body aa pp = record {
    type = discovery;
    payload = marshal body;
    progress_total = length aa * length pp;
    idempotency_key = 0;
  }

  -- scan, from the enqueueing on.
  unfoldable pub enqueue_body :
      Bool → ℕ → ℕ → ℕ → Principal → NewJob → ServiceState S L → ScanReply × ServiceState S L
  enqueue_body available fresh now max_queued p j s =
      let q = enqueue_with_key fresh now max_queued j s.queue in
      if not available then (no_manager, s) else elim q.0 [
        | err x ↦ (storage_error, record s { queue = q.1 })
        | ok job ↦ elim (record_event (event p scan_create job.id accepted) s.log) [
          | none ↦ (
            audit_unavailable,
            record s { queue = record q.1 { table = (cancel_job job.id now q.1.table).1 } },
          )
          | some log ↦ (created job, record s { queue = q.1; log = log })
        ]
      ]

  -- scan. `allowed` is what the limiter says, `body` what decode gives.
  unfoldable pub handle_scan :
      Bool
      → Bool
      → ℕ
      → ℕ
      → ℕ
      → Principal
      → Option ScanBody
      → ServiceState S L
      → ScanReply × ServiceState S L
  unfolding enqueue_body
  handle_scan allowed available fresh now max_queued p body s =
      if not allowed then (rate_limited, s) else elim body [
        | none ↦ (invalid_request, s)
        | some b ↦
            (let v = validate_job net e s.world b.targets b.ports in
              elim v.0 [
                | err x ↦ (
                  scope_denied x,
                  record s {
                    world = v.1;
                    log = audit_quietly record_event (event p scan_create 0 denied) s.log;
                  },
                )
                | ok (aa, pp) ↦
                    enqueue_body available fresh now max_queued p (body_job b aa pp)
                      (record s { world = v.1 })
              ])
      ]

-- respond, of an operation that answers with nothing.
unfoldable pub status_of : Result ServiceError (Unit {0}) → ℕ
status_of (ok _) = 200
status_of (err jobs_unavailable) = 503
status_of (err _) = 400

module _ {L : Type 0} (record_event : Log L) where
  -- cancel, merge and patchFinding: the operation, its audit event, and the first of their errors.
  unfoldable pub handle_cancel : Bool → ℕ → Principal → ℕ → Queue → L → ℕ × Queue × L
  unfolding status_of
  handle_cancel available now p i q l =
      let r = cancel_scan record_event available now p i q l in (status_of r.0, r.1, r.2)

  unfoldable pub handle_merge : Principal → ℕ → ℕ → Ledger → L → ℕ × Ledger × L
  unfolding status_of
  handle_merge p source target t l =
      let r = merge record_event p source target t l in (status_of r.0, r.1, r.2)

  unfoldable pub handle_finding :
      Principal → ℕ → Disposition → FindingTables → L → ℕ × FindingTables × L
  unfolding status_of
  handle_finding p i d t l =
      let r = set_finding_disposition record_event p i d t l in (status_of r.0, r.1, r.2)
