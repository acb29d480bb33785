-- ===== src/Jobs/Table.antt =====
-- internal/storage/sqlite/store.go: the jobs table and the operations on it. An operation is one
-- SQL statement or one transaction, so it is one step on the table. `now` is the clock.
use corta_sentry.Prelude.{
  ℕ, ◌+◌, Bool, true, false, ◌&&◌, ◌||◌, not, Option, none, some, [], ◌∷◌, ◌++◌, Result, ok, err,
  Text, leb, ◌==◌, if◌then◌else◌,
}
use corta_sentry.Jobs.Stamp.{stamp_less}
use corta_sentry.Jobs.Model.{
  Job, JobState, NewJob, StoreError, Table, active_count, cancelled, find, has_id, has_key,
  invalid_terminal_state, is_active, is_queued, is_running, is_terminal, lease_lost, no_rows,
  queue_full, queued, running, update,
}

abbrev pub or_braces : Text → Text
or_braces [] = b'{' ∷ b'}' ∷ []
or_braces p = p

abbrev pub new_row : ℕ → ℕ → NewJob → Job
new_row fresh now j = record {
  id = fresh;
  type = j.type;
  state = queued;
  payload = or_braces j.payload;
  attempt_count = 0;
  lease_owner = none;
  lease_expires_at = none;
  created_at = now;
  started_at = none;
  completed_at = none;
  cancel_requested = false;
  error_summary = [];
  progress_current = 0;
  progress_total = j.progress_total;
  idempotency_key = j.idempotency_key;
}

-- The caller's job, when a job with its key was found: it takes over three columns.
abbrev pub known_job : Job → NewJob → Job
known_job r j = record (new_row r.id r.created_at j) { state = r.state; payload = j.payload }

-- The insertion, when no job has the key.
unfoldable pub insert_bounded : ℕ → ℕ → ℕ → NewJob → Table → Result StoreError Job × Table
unfolding active_count
insert_bounded fresh now max_queued j t =
    if leb max_queued (active_count t)
    then (err queue_full, t)
    else (ok (new_row fresh now j), t ++ new_row fresh now j ∷ [])

-- CreateJobBounded, with the identifier that `newID` makes.
unfoldable pub create_job_bounded : ℕ → ℕ → ℕ → NewJob → Table → Result StoreError Job × Table
create_job_bounded fresh now max_queued j t =
    if not (j.idempotency_key == 0)
    then elim (find (has_key j.type j.idempotency_key) t) [
      | some r ↦ (ok (known_job r j), t)
      | none ↦ insert_bounded fresh now max_queued j t
    ]
    else insert_bounded fresh now max_queued j t

-- The lease has run out: a NULL compares as neither.
abbrev pub expired : ℕ → Option ℕ → Bool
expired now none = false
expired now (some t) = stamp_less t now

abbrev pub claimable : ℕ → Job → Bool
claimable now r =
    not r.cancel_requested
    && (is_queued r.state || (is_running r.state && expired now r.lease_expires_at))

-- The claimable row with the least creation time, the first of them if several have it.
unfoldable pub oldest : ℕ → Table → Option Job
oldest now [] = none
oldest now (r ∷ t) =
    let best = oldest now t in
    if claimable now r
    then elim best [
      | none ↦ some r
      | some b ↦ some (if stamp_less b.created_at r.created_at then b else r)
    ]
    else best

abbrev pub or_now : ℕ → Option ℕ → Option ℕ
or_now now none = some now
or_now now (some t) = some t

abbrev pub claimed : ℕ → ℕ → ℕ → Job → Job
claimed owner lease now r = record r {
  state = running;
  attempt_count = r.attempt_count + 1;
  lease_owner = some owner;
  lease_expires_at = some (now + lease);
  started_at = or_now now r.started_at;
}

-- ClaimJob. The answer is the row; the code reads eight of its columns into the job it returns.
unfoldable pub claim_job : ℕ → ℕ → ℕ → Table → Result StoreError Job × Table
claim_job owner lease now t = elim (oldest now t) [
  | none ↦ (err no_rows, t)
  | some r ↦ (ok (claimed owner lease now r), update (has_id r.id) (claimed owner lease now) t)
]

abbrev pub finished : JobState → Text → ℕ → Job → Job
finished state summary now r = record r {
  state = state;
  error_summary = summary;
  completed_at = some now;
  lease_owner = none;
  lease_expires_at = none;
}

-- FinishJob.
unfoldable pub finish_job : ℕ → JobState → Text → ℕ → Table → Result StoreError (Unit {0}) × Table
unfolding update
finish_job i state summary now t =
    if not (is_terminal state)
    then (err invalid_terminal_state, t)
    else (ok tt, update (has_id i) (finished state summary now) t)

abbrev pub owned_by : ℕ → Option ℕ → Bool
owned_by owner none = false
owned_by owner (some o) = o == owner

abbrev pub holds_lease : ℕ → ℕ → Job → Bool
holds_lease i owner r = has_id i r && (is_running r.state && owned_by owner r.lease_owner)

abbrev pub renewed : ℕ → ℕ → Job → Job
renewed lease now r = record r { lease_expires_at = some (now + lease) }

-- RenewJob. The identifier is the primary key, so at most one row is affected.
unfoldable pub renew_job : ℕ → ℕ → ℕ → ℕ → Table → Result StoreError (Unit {0}) × Table
unfolding update find
renew_job i owner lease now t = elim (find (holds_lease i owner) t) [
  | none ↦ (err lease_lost, t)
  | some _ ↦ (ok tt, update (holds_lease i owner) (renewed lease now) t)
]

-- JobCancelled.
unfoldable pub job_cancelled : ℕ → Table → Result StoreError Bool
unfolding find
job_cancelled i t = elim (find (has_id i) t) [ none ↦ err no_rows | some r ↦ ok r.cancel_requested ]

-- JobState.
unfoldable pub job_state : ℕ → Table → Result StoreError JobState
unfolding find
job_state i t = elim (find (has_id i) t) [ none ↦ err no_rows | some r ↦ ok r.state ]

-- UpdateJobProgress.
unfoldable pub update_job_progress : ℕ → ℕ → ℕ → Table → Table
unfolding update
update_job_progress i current total t =
    update (has_id i) (λ r. record r { progress_current = current; progress_total = total }) t

abbrev pub cancellable : ℕ → Job → Bool
cancellable i r = has_id i r && is_active r.state

abbrev pub cancelled_row : ℕ → Job → Job
cancelled_row now r =
    if is_queued r.state
    then record r { cancel_requested = true; state = cancelled; completed_at = some now }
    else record r { cancel_requested = true }

-- CancelJob.
unfoldable pub cancel_job : ℕ → ℕ → Table → Result StoreError (Unit {0}) × Table
unfolding update find
cancel_job i now t = elim (find (cancellable i) t) [
  | none ↦ (err no_rows, t)
  | some _ ↦ (ok tt, update (cancellable i) (cancelled_row now) t)
]
