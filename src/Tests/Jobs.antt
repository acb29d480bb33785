-- ===== src/Tests/Jobs.antt =====
-- internal/storage/sqlite/store.go and internal/jobs/manager.go on a table of one job.
use corta_sentry.Prelude.{
  ℕ, ◌≡◌, ◌≢◌, ◌≤◌, ◌↔◌, refl, ap, subst, ◌∙◌, true, false, none, some, [], ◌∷◌, arith, Text, Memᴰ,
  ok, err,
}
use corta_sentry.Jobs.Stamp.{second, stamp_less, fraction_text, fraction_digits, text_less}
use corta_sentry.Jobs.Model.{
  JobState, completed, cancelled, discovery, Job, Table, NewJob, find, has_id, update, active_count,
  is_terminal, lease_lost,
}
use corta_sentry.Jobs.Table.{
  new_row, claimed, claimable, claim_job, oldest, create_job_bounded, insert_bounded, renew_job,
  finish_job, job_state, finished, cancel_job, job_cancelled,
}
use corta_sentry.Jobs.Rows.{DistinctIds}
use corta_sentry.Jobs.Claim.{claim_job_lem, claim_job_exclusive}
use corta_sentry.Jobs.Create.{create_job_bounded_idempotent}
use corta_sentry.Jobs.Invariant.{here, next, create, claim, IsTable, Reach-IsTable}
use corta_sentry.Jobs.Orphan.{IsOrphan, ReachSparing}
use corta_sentry.Jobs.Cancel.{cancelled_running_stuck}
use corta_sentry.Jobs.Lease.{finish_job-revokes}
use corta_sentry.Jobs.Manager.{
  Queue, enqueue_with_key, heartbeat, HandlerError, context_canceled, finish_execution,
  finish_execution_lem, is_context_error,
}

abbrev scan : NewJob
scan = record { type = discovery; payload = []; progress_total = 3; idempotency_key = 5 }

abbrev row : Job
row = new_row 1 100 scan

abbrev held_row : Job
held_row = claimed 9 30 200 row

abbrev waiting : Table
waiting = row ∷ []

abbrev held : Table
held = held_row ∷ []

distinct : DistinctIds waiting
unfolding find
distinct = (refl, tt)

held_distinct : DistinctIds held
unfolding find
held_distinct = (refl, tt)

claims : (claim_job 9 30 200 waiting).0 ≡ ok held_row
unfolding claim_job oldest update
claims = refl

claimed_table : (claim_job 9 30 200 waiting).1 ≡ held
unfolding claim_job oldest update
claimed_table = refl

oldest_row : oldest 200 waiting ≡ some row
unfolding oldest
oldest_row = refl

claim_job_lem_example :
    (r : Job) × Memᴰ r waiting
    × (claimable 200 r ≡ true)
    × (held_row ≡ claimed 9 30 200 r)
    × (find (has_id 1) (claim_job 9 30 200 waiting).1 ≡ some held_row)
    × ((i : ℕ) → i ≢ 1 → find (has_id i) (claim_job 9 30 200 waiting).1 ≡ find (has_id i) waiting)
claim_job_lem_example = claim_job_lem 9 30 200 waiting distinct claims

abbrev row2 : Job
row2 = new_row 2 second (record scan { idempotency_key = 0 })

abbrev two_rows : Table
two_rows = row ∷ row2 ∷ []

two_distinct : DistinctIds two_rows
unfolding find
two_distinct = (refl, (refl, tt))

abbrev five_seconds : ℕ
five_seconds = 5000000000

abbrev long_held : Job
long_held = claimed 9 five_seconds 200 row

first_claim : (claim_job 9 five_seconds 200 two_rows).0 ≡ ok long_held
unfolding claim_job oldest update stamp_less
first_claim = refl

abbrev two_seconds : ℕ
two_seconds = 2000000000

second_claim :
    (claim_job 8 30 two_seconds (claim_job 9 five_seconds 200 two_rows).1).0
    ≡ ok (claimed 8 30 two_seconds row2)
unfolding claim_job oldest update stamp_less fraction_text fraction_digits text_less
second_claim = refl

claim_job_exclusive_example : (claimed 8 30 two_seconds row2).id ≢ long_held.id
claim_job_exclusive_example =
    claim_job_exclusive 9 five_seconds 200 two_rows two_distinct first_claim 8 30 two_seconds
      (omega arith) second_claim

-- A row created by a claim and a creation.
row_new : find (has_id 1) [] ≡ none
unfolding find
row_new = refl

Reach-IsTable_example : IsTable 4 (claim_job 9 30 200 (create_job_bounded 1 100 4 scan []).1).1
Reach-IsTable_example = Reach-IsTable (
    next (next here (create 1 100 scan [] row_new))
      (claim 9 30 200 (create_job_bounded 1 100 4 scan []).1))

created_table : (create_job_bounded 1 100 4 scan []).1 ≡ waiting
unfolding create_job_bounded insert_bounded find active_count
created_table = refl

held_found : find (has_id 1) held ≡ some held_row
unfolding find
held_found = refl

held-IsTable : IsTable 4 held
held-IsTable =
    subst (IsTable 4) (ap (λ (t : Table). (claim_job 9 30 200 t).1) created_table ∙ claimed_table)
      Reach-IsTable_example

cancelled_running_stuck_example :
    let u = (cancel_job 1 210 held).1 in
    IsOrphan 1 u
    × (1 ≤ active_count u)
    × (¬ (
        (owner : ℕ) × (lease : ℕ) × (now : ℕ) × (j : Job) × ((claim_job owner lease now u).0 ≡ ok j)
        × (j.id ≡ 1)))
cancelled_running_stuck_example =
    cancelled_running_stuck 1 210 4 held held_row held-IsTable held_found refl ReachSparing.here

created : (create_job_bounded 1 100 4 scan []).0 ≡ ok row
unfolding create_job_bounded insert_bounded find active_count
created = refl

create_job_bounded_idempotent_example :
    let t = (create_job_bounded 1 100 4 scan []).1 in
    let again = create_job_bounded 2 300 4 scan t in
    (again.1 ≡ t) × ((r : Job) × (again.0 ≡ ok r) × (r.id ≡ 1))
create_job_bounded_idempotent_example =
    create_job_bounded_idempotent 1 100 4 scan [] 2 300 4 scan (omega arith) created refl refl

finish_job-revokes_example :
    let u = (finish_job 1 completed [] 220 (claim_job 9 30 200 waiting).1).1 in
    (job_state 1 u ≡ ok completed) × ((renew_job 1 9 30 221 u).0 ≡ err lease_lost)
finish_job-revokes_example =
    finish_job-revokes 9 30 200 waiting distinct claims completed [] 220 30 221 refl

heartbeat_goes_on : (heartbeat 1 9 30 210 held).0 ≡ false
unfolding heartbeat renew_job job_cancelled find update
heartbeat_goes_on = refl

abbrev queue : Table → Queue
queue t = record { table = t; depth_up = 0; depth_down = 0 }

finish_execution_lem_example :
    (s : JobState) × (summary : Text) × (find
        (has_id 1)
        (finish_execution (λ _. []) (some context_canceled) 1 220 (queue held)).table
      ≡ some (finished s summary 220 held_row))
    × (is_terminal s ≡ true)
    × ((s ≡ completed) ↔ (some context_canceled ≡ none))
    × ((s ≡ cancelled) ↔ (
        (x : HandlerError) × (some context_canceled ≡ some x)
        × (is_context_error x ≡ true)
        × (held_row.cancel_requested ≡ true)))
finish_execution_lem_example =
    finish_execution_lem (λ _. []) (some context_canceled) 1 220 (queue held) held_found

enqueued : (enqueue_with_key 1 100 4 scan (queue [])).0 ≡ ok row
unfolding enqueue_with_key create_job_bounded insert_bounded find active_count
enqueued = refl
