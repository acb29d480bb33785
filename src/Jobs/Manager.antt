-- ===== src/Jobs/Manager.antt =====
-- internal/jobs/manager.go: enqueueing, the heartbeat of a running job, how it ends, and Wait. The
-- handler and the other workers are outside: their results and the clock are arguments.
use corta_sentry.Prelude.{
  ℕ, ◌+◌, ◌≡◌, ◌≢◌, refl, Bool, true, false, Option, none, some, List, [], ◌∷◌, arith,
  if◌then◌else◌, Result-cases, inl, inr, Result, ok, err, Text, ap, ◌↔◌,
}
use corta_sentry.Jobs.Model.{
  Job, JobState, completed, failed, cancelled, Table, NewJob, StoreError, find, has_id, is_terminal,
  is_running,
}
use corta_sentry.Jobs.Table.{
  create_job_bounded, job_cancelled, renew_job, finish_job, claim_job, finished,
}
use corta_sentry.Jobs.Rows.{DistinctIds}
use corta_sentry.Jobs.Create.{create_job_bounded_idempotent}
use corta_sentry.Jobs.Lease.{renew_job_lem, finish-found}

-- The manager's effects: the table, and the two ends of the gauge `queue_depth`.
pub record Queue : Type 0 where
  pub table : Table
  pub depth_up : ℕ
  pub depth_down : ℕ

-- EnqueueWithKey.
unfoldable pub enqueue_with_key : ℕ → ℕ → ℕ → NewJob → Queue → Result StoreError Job × Queue
enqueue_with_key fresh now max_queued j q =
    let r = create_job_bounded fresh now max_queued j q.table in
    elim r.0 [
      | err x ↦ (err x, record q { table = r.1 })
      | ok job ↦ (ok job, record q { table = r.1; depth_up = q.depth_up + 1 })
    ]

-- One tick of the goroutine beside a running job: true if it cancels the job's context.
unfoldable pub heartbeat : ℕ → ℕ → ℕ → ℕ → Table → Bool × Table
heartbeat i owner lease now t = elim (job_cancelled i t) [
  | err x ↦ (true, t)
  | ok c ↦
      if c
      then (true, t)
      else let r = renew_job i owner lease now t in
        elim r.0 [ ok _ ↦ (false, r.1) | err x ↦ (true, r.1) ]
]

-- What the handler returns: nothing, an error of its context, or another error.
pub data HandlerError : Type 0 where
  context_canceled context_deadline : HandlerError
  other_error : Text → HandlerError

abbrev pub is_context_error : HandlerError → Bool
is_context_error (other_error s) = false
is_context_error _ = true

abbrev pub or_false : Result StoreError Bool → Bool
or_false (ok b) = b
or_false (err x) = false

-- The state in which `execute` ends the job.
unfoldable pub end_state : Option HandlerError → ℕ → Table → JobState
end_state none i t = completed
end_state (some e) i t =
    if is_context_error e
    then (if or_false (job_cancelled i t) then cancelled else failed)
    else failed

-- The end of `execute`, after the handler: FinishJob, and the gauge.
unfoldable pub finish_execution :
    (HandlerError → Text) → Option HandlerError → ℕ → ℕ → Queue → Queue
unfolding end_state
finish_execution show e i now q =
    let summary : Text = elim e [ none ↦ [] | some x ↦ show x ] in
    record q {
      table = (finish_job i (end_state e i q.table) summary now q.table).1;
      depth_down = q.depth_down + 1;
    }

-- A tick of `loop`: a claim, and the job to execute if there is one.
unfoldable pub poll : ℕ → ℕ → ℕ → Queue → Option Job × Queue
poll owner lease now q =
    let r = claim_job owner lease now q.table in
    elim r.0 [
      | err x ↦ (none, record q { table = r.1 })
      | ok j ↦ (some j, record q { table = r.1 })
    ]

-- How Wait ends.
pub data WaitEnd : Type 0 where
  done : WaitEnd
  job_ended : JobState → WaitEnd
  lookup_failed : StoreError → WaitEnd
  still_waiting : WaitEnd

-- Wait, over the states that its ticks read.
unfoldable pub wait : List (Result StoreError JobState) → WaitEnd
wait [] = still_waiting
wait (err x ∷ rest) = lookup_failed x
wait (ok completed ∷ rest) = done
wait (ok failed ∷ rest) = job_ended failed
wait (ok cancelled ∷ rest) = job_ended cancelled
wait (ok s ∷ rest) = wait rest

cancelled_found :
    (i : ℕ) (t : Table) {r : Job}
    → find (has_id i) t ≡ some r
    → job_cancelled i t ≡ ok r.cancel_requested
unfolding job_cancelled
cancelled_found i t h = rw (h, job_cancelled)

module _ (i owner lease now : ℕ) (t : Table) where
  heartbeat_tests :
      (heartbeat i owner lease now t).0 ≡ false
      → (job_cancelled i t ≡ ok false) × ((renew_job i owner lease now t).0 ≡ ok tt)
  unfolding heartbeat
  heartbeat_tests h = elim (Result-cases (job_cancelled i t)) [
    | inr (x, e) ↦ absurd (ground arith)
    | inl (c, e) ↦ elim (Result-cases (renew_job i owner lease now t).0) [
      | inr (x, f) ↦ absurd (ground arith)
      | inl (u, f) ↦ (ground arith, f)
    ]
  ]

  same_answer : {a b : Bool} → job_cancelled i t ≡ ok a → job_cancelled i t ≡ ok b → a ≡ b
  same_answer p q = cc

  -- A heartbeat lets its job go on only while the job is there, nobody asked to cancel it, and this
  -- worker holds its lease.
  pub heartbeat_lem :
      DistinctIds t
      → (heartbeat i owner lease now t).0 ≡ false
      → (r : Job) × (find (has_id i) t ≡ some r)
        × (r.cancel_requested ≡ false)
        × (is_running r.state ≡ true)
        × (r.lease_owner ≡ some owner)
  heartbeat_lem d h =
      let (c, n) = heartbeat_tests h in
      let (r, f, a, o) = (renew_job_lem i owner lease now t d).0.0 n in
      (r, f, same_answer (cancelled_found i t f) c, a, o)

-- When the handler of a stored job has returned, the job is stored as ended: completed exactly if
-- there was no error, and cancelled exactly if an error of the context met a request to cancel.
pub finish_execution_lem :
    (show : HandlerError → Text) (e : Option HandlerError) (i now : ℕ) (q : Queue) {r : Job}
    → find (has_id i) q.table ≡ some r
    → (s : JobState) × (summary : Text) × (find (has_id i) (finish_execution show e i now q).table
        ≡ some (finished s summary now r))
      × (is_terminal s ≡ true)
      × ((s ≡ completed) ↔ (e ≡ none))
      × ((s ≡ cancelled) ↔ (
          (x : HandlerError) × (e ≡ some x)
          × (is_context_error x ≡ true)
          × (r.cancel_requested ≡ true)))
unfolding finish_execution
finish_execution_lem show none i now q h = (
  completed,
  [],
  finish-found i completed [] now q.table refl h,
  refl,
  (λ _. refl, λ _. refl),
  (λ z. cc, λ (x, z, c, y). cc),
)
finish_execution_lem show (some x) i now q {r} h =
    let s = end_state (some x) i q.table in
    let k = cancelled_found i q.table h in
    (
      s,
      show x,
      finish-found i s (show x) now q.table (ground arith) h,
      ground arith,
      (λ z. absurd (ground arith), λ z. cc),
      (λ z. (x, refl, ground arith, ground arith), λ z. ground arith),
    )

module _ (fresh now max_queued : ℕ) (j : NewJob) (q : Queue) {r : Job} where
  enqueue_created :
      (enqueue_with_key fresh now max_queued j q).0 ≡ ok r
      → (create_job_bounded fresh now max_queued j q.table).0 ≡ ok r
  unfolding enqueue_with_key
  enqueue_created h = elim (Result-cases (create_job_bounded fresh now max_queued j q.table).0) [
    | inl (x, e) ↦ ground arith
    | inr (x, e) ↦ absurd (ground arith)
  ]

  enqueue_ok :
      (create_job_bounded fresh now max_queued j q.table).0 ≡ ok r
      → (enqueue_with_key fresh now max_queued j q).1 ≡ record q {
        table = (create_job_bounded fresh now max_queued j q.table).1;
        depth_up = q.depth_up + 1;
      }
  unfolding enqueue_with_key
  enqueue_ok h = rw (h, enqueue_with_key)

-- Enqueueing under a key that is taken adds no job, and raises the gauge of the queue all the same.
pub enqueue_gauge :
    (fresh now max_queued : ℕ) (j : NewJob) (q : Queue) {r : Job}
    → j.idempotency_key ≢ 0
    → (enqueue_with_key fresh now max_queued j q).0 ≡ ok r
    → (fresh' now' : ℕ)
    → let q' = (enqueue_with_key fresh now max_queued j q).1 in
      let again = (enqueue_with_key fresh' now' max_queued j q').1 in
      (again.table ≡ q'.table) × (again.depth_up ≡ q'.depth_up + 1)
enqueue_gauge fresh now max_queued j q {r} k h fresh' now' =
    let q' = (enqueue_with_key fresh now max_queued j q).1 in
    let c = enqueue_created fresh now max_queued j q h in
    let t' = (create_job_bounded fresh now max_queued j q.table).1 in
    let (same, (r', again, _)) =
      create_job_bounded_idempotent fresh now max_queued j q.table fresh' now' max_queued j k c refl
        refl in
    let tables : q'.table ≡ t' =
      ap (λ (x : Queue). x.table) (enqueue_ok fresh now max_queued j q c) in
    let again' : (create_job_bounded fresh' now' max_queued j q'.table).0 ≡ ok r' =
      rw tables again in
    let same' : (create_job_bounded fresh' now' max_queued j q'.table).1 ≡ q'.table =
      rw tables same in
    rw (enqueue_ok fresh' now' max_queued j q' again') (same', refl)
