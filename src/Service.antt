-- ===== src/Service.antt =====
-- internal/application/service.go: the operations of the service over the other components. The
-- audit log is a state with an operation that may fail; the details of an event are left out.
pub mod Scans
pub mod Handler
use corta_sentry.Prelude.{
  ℕ, ◌+◌, ◌*◌, Bool, true, false, ◌&&◌, not, Option, none, some, List, [], ◌∷◌, ◌++◌, map, length,
  Text, if◌then◌else◌, Result, ok, err,
}
use corta_sentry.Scope.Address.{Addr, NetText}
use corta_sentry.Scope.Engine.{Engine, World, JobError}
use corta_sentry.Scope.Job.{validate_job}
use corta_sentry.Jobs.Model.{Job, NewJob, discovery, StoreError}
use corta_sentry.Jobs.Table.{new_row, cancel_job}
use corta_sentry.Jobs.Manager.{Queue, enqueue_with_key}
use corta_sentry.Findings.Table.{
  FindingTables, FindingError, Disposition, update_finding_disposition,
}
use corta_sentry.Assets.Merge.{Ledger, MergeError, merge_assets}

pub record Principal : Type 0 where
  pub kind : Text
  pub id : Text
  pub request_id : Text

-- Principal.Actor.
unfoldable pub actor : Principal → Text
actor p = elim p.id [ [] ↦ p.kind | c ∷ s ↦ p.kind ++ b':' ∷ c ∷ s ]

pub data Action : Type 0 where
  scan_create job_cancel asset_merge finding_disposition : Action

pub data Outcome : Type 0 where
  denied accepted failure success : Outcome

pub record AuditEvent : Type 0 where
  pub actor : Text
  pub action : Action
  pub resource_id : ℕ
  pub outcome : Outcome
  pub request_id : Text

-- The audit log of the store: nothing if the event cannot be recorded.
abbrev pub Log : Type 0 → Type 0
Log L = AuditEvent → L → Option L

pub record ServiceState (S L : Type 0) : Type 0 where
  pub world : World S
  pub queue : Queue
  pub log : L

pub data ServiceError : Type 0 where
  jobs_unavailable audit_failed : ServiceError
  scan_denied : JobError → ServiceError
  store_failed : StoreError → ServiceError
  merge_failed : MergeError → ServiceError
  disposition_failed : FindingError → ServiceError

pub record ScanRequest : Type 0 where
  pub targets : List Text
  pub ports : List ℕ
  pub idempotency_key : ℕ

pub record ScanPreview : Type 0 where
  pub allowed : Bool
  pub reason : Option JobError
  pub targets : List Text
  pub ports : List ℕ
  pub host_count : ℕ
  pub probe_count : ℕ
  pub active_enabled : Bool

abbrev pub event : Principal → Action → ℕ → Outcome → AuditEvent
event p action i outcome = record {
  actor = actor p;
  action = action;
  resource_id = i;
  outcome = outcome;
  request_id = p.request_id;
}

module _ {L : Type 0} (record_event : Log L) where
  -- audit, where its error is dropped.
  unfoldable pub audit_quietly : AuditEvent → L → L
  audit_quietly e l = elim (record_event e l) [ none ↦ l | some l' ↦ l' ]

  -- What an operation answers after its audit: its own error first, then that of the audit.
  unfoldable pub audited :
      {X : Type 0}
      → Principal
      → Action
      → ℕ
      → (X → ServiceError)
      → Result X (Unit {0})
      → L
      → Result ServiceError (Unit {0}) × L
  audited p action i wrap r l = elim r [
    | err x ↦ (err (wrap x), audit_quietly (event p action i failure) l)
    | ok _ ↦ elim (record_event (event p action i success) l) [
      | none ↦ (err audit_failed, l)
      | some l' ↦ (ok tt, l')
    ]
  ]

  -- CancelJob; the manager may be missing.
  unfoldable pub cancel_scan :
      Bool → ℕ → Principal → ℕ → Queue → L → Result ServiceError (Unit {0}) × Queue × L
  cancel_scan available now p i q l =
      if not available
      then (err jobs_unavailable, q, l)
      else let c = cancel_job i now q.table in
        let a = audited p job_cancel i store_failed c.0 l in (a.0, record q { table = c.1 }, a.1)

  -- MergeAssets.
  unfoldable pub merge :
      Principal → ℕ → ℕ → Ledger → L → Result ServiceError (Unit {0}) × Ledger × L
  merge p source target t l =
      let m = merge_assets source target t in
      let a = audited p asset_merge target merge_failed m.0 l in (a.0, m.1, a.1)

  -- SetFindingDisposition.
  unfoldable pub set_finding_disposition :
      Principal
      → ℕ
      → Disposition
      → FindingTables
      → L
      → Result ServiceError (Unit {0}) × FindingTables × L
  set_finding_disposition p i d t l =
      let m = update_finding_disposition i d t in
      let a = audited p finding_disposition i disposition_failed m.0 l in (a.0, m.1, a.1)

  module _ (net : NetText) {S : Type 0} (e : Engine S)
      (marshal : List Text → List ℕ → ℕ → Text) where
    -- The job of a request whose targets and ports were validated.
    abbrev pub scan_job : ScanRequest → List Addr → List ℕ → NewJob
    scan_job req aa pp = record {
      type = discovery;
      payload = marshal (map net.show aa) pp req.idempotency_key;
      progress_total = length aa * length pp;
      idempotency_key = req.idempotency_key;
    }

    -- The second half of SubmitScan.
    unfoldable pub enqueue_scan :
        ℕ
        → ℕ
        → ℕ
        → Principal
        → NewJob
        → ServiceState S L
        → Result ServiceError Job × ServiceState S L
    enqueue_scan fresh now max_queued p j s =
        let q = enqueue_with_key fresh now max_queued j s.queue in
        elim q.0 [
          | err x ↦ (
            err (store_failed x),
            record s { queue = q.1; log = audit_quietly (event p scan_create 0 failure) s.log },
          )
          | ok job ↦ (
            ok job,
            record s {
              queue = q.1;
              log = audit_quietly (event p scan_create job.id accepted) s.log;
            },
          )
        ]

    -- SubmitScan; the manager may be missing.
    unfoldable pub submit_scan :
        Bool
        → ℕ
        → ℕ
        → ℕ
        → Principal
        → ScanRequest
        → ServiceState S L
        → Result ServiceError Job × ServiceState S L
    submit_scan available fresh now max_queued p req s =
        if not available
        then (err jobs_unavailable, s)
        else let v = validate_job net e s.world req.targets req.ports in
          elim v.0 [
            | err x ↦ (
              err (scan_denied x),
              record s { world = v.1; log = audit_quietly (event p scan_create 0 denied) s.log },
            )
            | ok (aa, pp) ↦
                enqueue_scan fresh now max_queued p (scan_job req aa pp) (record s { world = v.1 })
          ]

-- PreviewScan, on the engine that has no auditor.
unfoldable pub preview_scan :
    NetText → {S : Type 0} → Engine S → World S → ScanRequest → ScanPreview
preview_scan net e w req = elim (validate_job net e w req.targets req.ports).0 [
  | err x ↦ record {
    allowed = false;
    reason = some x;
    targets = req.targets;
    ports = req.ports;
    host_count = length req.targets;
    probe_count = length req.targets * length req.ports;
    active_enabled = e.cfg.active_enabled;
  }
  | ok (aa, pp) ↦ record {
    allowed = true;
    reason = none;
    targets = map net.show aa;
    ports = pp;
    host_count = length aa;
    probe_count = length aa * length pp;
    active_enabled = e.cfg.active_enabled;
  }
]
