-- ===== src/Service/Scans.antt =====
-- internal/application/service.go: SubmitScan and PreviewScan over the scope engine and the queue.
use corta_sentry.Prelude.{
  ℕ, ◌≡◌, refl, ap, sym, ◌∙◌, true, Option, none, some, Option-cases, Result, List, [], Text, arith,
  Result-cases, inl, inr, ◌⊎◌, ◌↔◌, ok, err,
}
use corta_sentry.Scope.Address.{Addr, NetText}
use corta_sentry.Scope.Engine.{
  ScopeConfig, Auditor, Engine, World, new, JobError, load_prefixes, load_ports, bad_port,
  bad_excluded_port,
}
use corta_sentry.Scope.Job.{validate_job, preview_job}
use corta_sentry.Scope.Validate.{IsValidJob, validate_job-IsValidJob}
use corta_sentry.Scope.Preview.{AlwaysRecords, preview_job-validate_job}
use corta_sentry.Jobs.Model.{Job, NewJob, StoreError}
use corta_sentry.Jobs.Manager.{enqueue_with_key}
use corta_sentry.Service.{
  Principal, Log, ServiceState, ScanRequest, scan_denied, scan_job, enqueue_scan, submit_scan,
  preview_scan, audit_quietly, event, scan_create, denied, accepted, failure, AuditEvent,
  ServiceError, store_failed,
}

module _ {L : Type 0} (record_event : Log L) (net : NetText) {S : Type 0} (e : Engine S)
    (marshal : List Text → List ℕ → ℕ → Text) (fresh now max_queued : ℕ) (p : Principal) where
  -- What the log is after an event was given to it: what recording it makes of the log, or the log as
  -- it was if it cannot be recorded.
  abbrev pub IsAttempted : AuditEvent → L → L → Type 0
  IsAttempted ev l l' = (record_event ev l ≡ some l') ⊎ ((record_event ev l ≡ none) × (l' ≡ l))

  audit_quietly-IsAttempted :
      (ev : AuditEvent) (l : L) → IsAttempted ev l (audit_quietly record_event ev l)
  unfolding audit_quietly
  audit_quietly-IsAttempted ev l = elim (Option-cases (record_event ev l)) [
    | inl n ↦ inr (n, rw (n, audit_quietly) refl)
    | inr (l', y) ↦ inl (rw (y, audit_quietly) refl)
  ]

  -- What a submission makes of a validated job: the queue's answer, and an event about it.
  pub data IsSubmitted (j : NewJob) (s : ServiceState S L)
      (r : Result ServiceError Job × ServiceState S L) : Type 0 where
    is_queued :
        (job : Job)
        → enqueue_with_key fresh now max_queued j s.queue ≡ (ok job, r.1.queue)
        → r.0 ≡ ok job
        → IsAttempted (event p scan_create job.id accepted) s.log r.1.log
        → IsSubmitted j s r
    is_rejected :
        (x : StoreError)
        → enqueue_with_key fresh now max_queued j s.queue ≡ (err x, r.1.queue)
        → r.0 ≡ err (store_failed x)
        → IsAttempted (event p scan_create 0 failure) s.log r.1.log
        → IsSubmitted j s r

  enqueue_scan-IsSubmitted :
      (j : NewJob) (w : World S) (s : ServiceState S L)
      → IsSubmitted j s (
          enqueue_scan record_event net e marshal fresh now max_queued p j (record s { world = w }))
  unfolding enqueue_scan
  enqueue_scan-IsSubmitted j w s =
      let q = enqueue_with_key fresh now max_queued j s.queue in
      elim (Result-cases q.0) [
        | inl (job, y) ↦
            rw (y, enqueue_scan)
              (is_queued job (ap (λ (a : Result StoreError Job). (a, q.1)) y) refl
                (audit_quietly-IsAttempted (event p scan_create job.id accepted) s.log))
        | inr (x, n) ↦
            rw (n, enqueue_scan)
              (is_rejected x (ap (λ (a : Result StoreError Job). (a, q.1)) n) refl
                (audit_quietly-IsAttempted (event p scan_create 0 failure) s.log))
      ]

  validated_pair :
      (s : ServiceState S L) (req : ScanRequest)
      → ((aa : List Addr) × (pp : List ℕ) × ((validate_job net e s.world req.targets req.ports).0
            ≡ ok (aa, pp)))
        ⊎ ((x : JobError) × ((validate_job net e s.world req.targets req.ports).0 ≡ err x))
  validated_pair s req = elim (Result-cases (validate_job net e s.world req.targets req.ports).0) [
    | inl ((aa, pp), y) ↦ inl (aa, pp, y)
    | inr (x, n) ↦ inr (x, n)
  ]

  -- A submitted scan is enqueued only if validation accepts it, as a job for exactly the validated
  -- targets and ports, which meet the policy, and then the answer is that of the queue. If
  -- validation refuses it, the answer is the refusal and the queue is as it was. Either way the
  -- audit log has got the event, or cannot take it and is as it was.
  pub submit_scan_lem :
      (req : ScanRequest) (s : ServiceState S L)
      → let r = submit_scan record_event net e marshal true fresh now max_queued p req s in
        ((aa : List Addr) × (pp : List ℕ) × ((validate_job net e s.world req.targets req.ports).0
            ≡ ok (aa, pp))
          × IsValidJob net e aa pp
          × IsSubmitted (scan_job record_event net e marshal req aa pp) s r)
        ⊎ ((x : JobError) × ((validate_job net e s.world req.targets req.ports).0 ≡ err x)
            × (r.0 ≡ err (scan_denied x))
            × (r.1.queue ≡ s.queue)
            × IsAttempted (event p scan_create 0 denied) s.log r.1.log)
  unfolding submit_scan
  submit_scan_lem req s = elim (validated_pair s req) [
    | inl (aa, pp, y) ↦ inl (
      aa,
      pp,
      y,
      validate_job-IsValidJob net e s.world req.targets req.ports y,
      rw (y, submit_scan)
          (enqueue_scan-IsSubmitted (scan_job record_event net e marshal req aa pp)
            (validate_job net e s.world req.targets req.ports).1 s),
    )
    | inr (x, n) ↦ inr (
      x,
      n,
      ground arith,
      ground arith,
      rw (n, submit_scan) (audit_quietly-IsAttempted (event p scan_create 0 denied) s.log),
    )
  ]

-- The engine that New makes without an auditor is the one it makes with it, less the auditor.
new_unaudited :
    (net : NetText) {S : Type 0} (c : ScopeConfig) (a : Option (Auditor S)) (e e' : Engine S)
    → new net c a ≡ ok e
    → new net c none ≡ ok e'
    → e' ≡ record e { audit = none }
unfolding new
new_unaudited net c a e e' h k = elim (Result-cases (load_prefixes net c.allowed_cidrs)) [
  | inr (x, n) ↦ absurd (ground arith)
  | inl (al, y) ↦ elim (Result-cases (load_prefixes net c.denied_cidrs)) [
    | inr (x, n) ↦ absurd (ground arith)
    | inl (dn, z) ↦ elim (Result-cases (load_ports bad_port [] c.allowed_ports)) [
      | inr (x, n) ↦ absurd (ground arith)
      | inl (ps, u) ↦ elim (Result-cases (load_ports bad_excluded_port [] c.excluded_ports)) [
        | inr (x, n) ↦ absurd (ground arith)
        | inl (ex, v) ↦ ground arith
      ]
    ]
  ]
]

preview_allowed :
    (net : NetText) {S : Type 0} (e : Engine S) (w : World S) (req : ScanRequest)
    → ((preview_scan net e w req).allowed ≡ true) ↔ (
        (aa : List Addr) × (pp : List ℕ) × ((validate_job net e w req.targets req.ports).0
          ≡ ok (aa, pp)))
unfolding preview_scan
preview_allowed net e w req = elim (Result-cases (validate_job net e w req.targets req.ports).0) [
  | inl ((aa, pp), y) ↦ (λ h. (aa, pp, y), λ h. ground arith)
  | inr (x, n) ↦ (λ h. absurd (ground arith), λ (aa, pp, y). absurd (ground arith))
]

-- The preview of a scan, on the engine that the service makes for previews, allows exactly the
-- requests that the validation of a submitted scan accepts, if the auditor never fails.
pub preview_scan_lem :
    (net : NetText) {S : Type 0} (c : ScopeConfig) (a : Option (Auditor S)) (e e' : Engine S)
    → new net c a ≡ ok e
    → new net c none ≡ ok e'
    → AlwaysRecords e
    → (w : World S) (req : ScanRequest)
    → ((preview_scan net e' w req).allowed ≡ true) ↔ (
        (aa : List Addr) × (pp : List ℕ) × ((validate_job net e w req.targets req.ports).0
          ≡ ok (aa, pp)))
unfolding preview_job
preview_scan_lem net c a e e' h k always w req =
    let q = preview_job-validate_job net e always w req.targets req.ports in
    let u = preview_allowed net (record e { audit = none }) w req in
    rw (new_unaudited net c a e e' h k)
      (λ y. (let (aa, pp, z) = u.0 y in (aa, pp, sym q ∙ z)), λ (aa, pp, z). u.1 (aa, pp, q ∙ z))
