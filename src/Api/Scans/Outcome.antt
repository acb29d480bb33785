-- ===== src/Api/Scans/Outcome.antt =====
-- internal/api/api.go: what a request for a scan can lead to.
use corta_sentry.Prelude.{false, none, ℕ, ◌≡◌, Bool, Option, some, List, ok, err, Text}
use corta_sentry.Scope.Address.{Addr, NetText}
use corta_sentry.Scope.Engine.{Engine, JobError}
use corta_sentry.Scope.Job.{validate_job}
use corta_sentry.Scope.Validate.{IsValidJob}
use corta_sentry.Jobs.Model.{Job, NewJob, StoreError}
use corta_sentry.Jobs.Table.{cancel_job}
use corta_sentry.Jobs.Manager.{Queue, enqueue_with_key}
use corta_sentry.Service.{Principal, Log, ServiceState, event, scan_create, accepted}
use corta_sentry.Api.Scans.{
  rate_limited, invalid_request, no_manager, storage_error, scope_denied, ScanBody, ScanReply,
  created, audit_unavailable, body_job,
}

module _ {L : Type 0} (record_event : Log L) (net : NetText) {S : Type 0} (e : Engine S)
    (marshal : ScanBody → Text) (fresh now max_queued : ℕ) (p : Principal)
    (s : ServiceState S L) where
  -- What the handler made of the queue for a job, given its answer.
  pub data Enqueued (j : NewJob) (o : ScanReply × ServiceState S L) : Type 0 where
    is_created :
        (job : Job)
        → o.0 ≡ created job
        → enqueue_with_key fresh now max_queued j s.queue ≡ (ok job, o.1.queue)
        → record_event (event p scan_create job.id accepted) s.log ≡ some o.1.log
        → Enqueued j o
    is_withdrawn :
        (job : Job) (q : Queue)
        → o.0 ≡ audit_unavailable
        → enqueue_with_key fresh now max_queued j s.queue ≡ (ok job, q)
        → o.1.queue.table ≡ (cancel_job job.id now q.table).1
        → Enqueued j o
    is_refused :
        (x : StoreError)
        → o.0 ≡ storage_error
        → enqueue_with_key fresh now max_queued j s.queue ≡ (err x, o.1.queue)
        → Enqueued j o

  -- What the handler did with a request: why it left the queue as it is, or what became of the job.
  pub data IsHandled (allowed available : Bool) (body : Option ScanBody)
      (o : ScanReply × ServiceState S L) : Type 0 where
    limited :
        allowed ≡ false
        → o.0 ≡ rate_limited
        → o.1.queue ≡ s.queue
        → IsHandled allowed available body o
    malformed :
        body ≡ none
        → o.0 ≡ invalid_request
        → o.1.queue ≡ s.queue
        → IsHandled allowed available body o
    out_of_scope :
        (b : ScanBody) (x : JobError)
        → body ≡ some b
        → (validate_job net e s.world b.targets b.ports).0 ≡ err x
        → o.0 ≡ scope_denied x
        → o.1.queue ≡ s.queue
        → IsHandled allowed available body o
    unmanaged :
        available ≡ false
        → o.0 ≡ no_manager
        → o.1.queue ≡ s.queue
        → IsHandled allowed available body o
    validated :
        (b : ScanBody) (aa : List Addr) (pp : List ℕ)
        → body ≡ some b
        → (validate_job net e s.world b.targets b.ports).0 ≡ ok (aa, pp)
        → IsValidJob net e aa pp
        → Enqueued (body_job record_event net e marshal b aa pp) o
        → IsHandled allowed available body o
