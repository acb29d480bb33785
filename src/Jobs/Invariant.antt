-- ===== src/Jobs/Invariant.antt =====
-- internal/storage/sqlite/store.go: the steps of the jobs table, and the tables that they reach.
use corta_sentry.Prelude.{
  ℕ, ◌+◌, ◌≤◌, ◌≡◌, ◌≢◌, refl, Bool, true, false, Option, none, some, [], ◌∷◌, ◌++◌, Memᴰ, arith,
  leb, ◌==◌, Bool-cases, Option-cases, inl, inr, All, All-append, Text,
}
use corta_sentry.Jobs.Model.{
  Job, JobState, unset, Table, NewJob, find, update, has_id, has_key, active_count, is_active,
  is_running, is_terminal,
}
use corta_sentry.Jobs.Table.{
  oldest, claimable, claimed, finished, renewed, holds_lease, cancellable, cancelled_row,
  create_job_bounded, insert_bounded, new_row, claim_job, finish_job, renew_job,
  update_job_progress, cancel_job,
}
use corta_sentry.Jobs.Claim.{claim_job-none, claim_job-some}
use corta_sentry.Jobs.Rows.{
  DistinctIds, append-DistinctIds, oldest_lem, same_row, update-DistinctIds, All-update,
  active_count-update,
}

-- One operation of the store. A new identifier is one that no row has.
pub data Step (max_queued : ℕ) : Table → Table → Type 0 where
  create :
      (fresh now : ℕ) (j : NewJob) (t : Table)
      → find (has_id fresh) t ≡ none
      → Step max_queued t (create_job_bounded fresh now max_queued j t).1
  claim : (owner lease now : ℕ) (t : Table) → Step max_queued t (claim_job owner lease now t).1
  renew : (i owner lease now : ℕ) (t : Table) → Step max_queued t (renew_job i owner lease now t).1
  progress :
      (i current total : ℕ) (t : Table) → Step max_queued t (update_job_progress i current total t)
  cancel : (i now : ℕ) (t : Table) → Step max_queued t (cancel_job i now t).1
  finish :
      (i : ℕ) (s : JobState) (summary : Text) (now : ℕ) (t : Table)
      → Step max_queued t (finish_job i s summary now t).1

pub data Reach (max_queued : ℕ) (s : Table) : Table → Type 0 where
  here : Reach max_queued s s
  next : {t u : Table} → Reach max_queued s t → Step max_queued t u → Reach max_queued s u

abbrev pub is_some : Option ℕ → Bool
is_some none = false
is_some (some _) = true

-- What holds of each row: a lease exactly while the job runs, and an end exactly when it has ended.
pub record IsRow (r : Job) : Type 0 where
  pub owner_iff_running : is_some r.lease_owner ≡ is_running r.state
  pub expiry_iff_running : is_some r.lease_expires_at ≡ is_running r.state
  pub running_started : is_running r.state ≡ true → is_some r.started_at ≡ true
  pub running_attempted : is_running r.state ≡ true → 1 ≤ r.attempt_count
  pub completed_iff_terminal : is_some r.completed_at ≡ is_terminal r.state
  pub state_set : r.state ≢ unset
  pub payload_given : r.payload ≢ []

pub record IsTable (max_queued : ℕ) (t : Table) : Type 0 where
  pub rows : All IsRow t
  pub distinct : DistinctIds t
  pub bounded : active_count t ≤ max_queued

active_count-append : (t u : Table) → active_count (t ++ u) ≡ active_count t + active_count u
unfolding active_count
active_count-append [] u = omega arith
active_count-append (r ∷ t) u = omega (arith, active_count-append t u)

new_row-IsRow : (fresh now : ℕ) (j : NewJob) → IsRow (new_row fresh now j)
new_row-IsRow fresh now j = ground arith

claimed-IsRow :
    (owner lease now : ℕ) (r : Job)
    → IsRow r
    → claimable now r ≡ true
    → IsRow (claimed owner lease now r)
claimed-IsRow owner lease now r h c = ground arith

renewed-IsRow :
    (i owner lease now : ℕ) (r : Job)
    → holds_lease i owner r ≡ true
    → IsRow r
    → IsRow (renewed lease now r)
renewed-IsRow i owner lease now r c h = ground arith

cancelled_row-IsRow :
    (i now : ℕ) (r : Job) → cancellable i r ≡ true → IsRow r → IsRow (cancelled_row now r)
cancelled_row-IsRow i now r c h = ground arith

finished-IsRow :
    (s : JobState) (summary : Text) (now : ℕ) (r : Job)
    → is_terminal s ≡ true
    → IsRow r
    → IsRow (finished s summary now r)
finished-IsRow s summary now r c h = ground arith

claimable-is_active : (now : ℕ) (r : Job) → claimable now r ≡ true → is_active r.state ≡ true
claimable-is_active now r c = ground arith

terminal_not_active : (s : JobState) → is_terminal s ≡ true → is_active s ≡ true → ⊥
terminal_not_active s y a = ground arith

snoc-bounded :
    (max_queued : ℕ) (t : Table) (r : Job)
    → leb max_queued (active_count t) ≡ false
    → active_count (t ++ r ∷ []) ≤ max_queued
unfolding active_count
snoc-bounded max_queued t r room = ground (arith, active_count-append t (r ∷ []))

-- An update keeps the invariant, if it keeps rows, identifiers, and makes no idle row active.
update-IsTable :
    (max_queued : ℕ) (p : Job → Bool) (f : Job → Job) (t : Table)
    → ((r : Job) → (f r).id ≡ r.id)
    → ((r : Job) → Memᴰ r t → p r ≡ true → IsRow r → IsRow (f r))
    → ((r : Job) → Memᴰ r t → p r ≡ true → is_active (f r).state ≡ true → is_active r.state ≡ true)
    → IsTable max_queued t
    → IsTable max_queued (update p f t)
update-IsTable max_queued p f t ids rows active h = record {
  rows = All-update p f IsRow t rows h.rows;
  distinct = update-DistinctIds p f ids t h.distinct;
  bounded = omega (arith, active_count-update p f t active, h.bounded);
}

module _ (max_queued : ℕ) (t : Table) (h : IsTable max_queued t) where
  insert_bounded-IsTable :
      (fresh now : ℕ) (j : NewJob)
      → find (has_id fresh) t ≡ none
      → IsTable max_queued (insert_bounded fresh now max_queued j t).1
  unfolding insert_bounded
  insert_bounded-IsTable fresh now j new = elim (Bool-cases (leb max_queued (active_count t))) [
    | inl full ↦ rw full h
    | inr room ↦ rw room (record {
      rows = All-append IsRow t (new_row fresh now j ∷ []) h.rows (new_row-IsRow fresh now j, tt);
      distinct = append-DistinctIds t (new_row fresh now j) h.distinct new;
      bounded = snoc-bounded max_queued t (new_row fresh now j) room;
    })
  ]

  create_job_bounded-IsTable :
      (fresh now : ℕ) (j : NewJob)
      → find (has_id fresh) t ≡ none
      → IsTable max_queued (create_job_bounded fresh now max_queued j t).1
  unfolding create_job_bounded
  create_job_bounded-IsTable fresh now j new = elim (Bool-cases (j.idempotency_key == 0)) [
    | inl z ↦ rw z (insert_bounded-IsTable fresh now j new)
    | inr k ↦ elim (Option-cases (find (has_key j.type j.idempotency_key) t)) [
      | inl n ↦ rw (k, n) (insert_bounded-IsTable fresh now j new)
      | inr (r, e) ↦ rw (k, e) h
    ]
  ]

  claim_job-IsTable : (owner lease now : ℕ) → IsTable max_queued (claim_job owner lease now t).1
  claim_job-IsTable owner lease now = elim (Option-cases (oldest now t)) [
    | inl n ↦ rw (claim_job-none owner lease now t h.distinct n) h
    | inr (r, e) ↦
        let (c, m) = oldest_lem now t e in
        rw (claim_job-some owner lease now t h.distinct r e) (
          update-IsTable max_queued (has_id r.id) (claimed owner lease now) t (λ _. refl)
            (λ s n y k. claimed-IsRow owner lease now s k (rw (same_row r s t h.distinct m n y) c))
            (λ s n y a. claimable-is_active now s (rw (same_row r s t h.distinct m n y) c)) h)
  ]

  renew_job-IsTable : (i owner lease now : ℕ) → IsTable max_queued (renew_job i owner lease now t).1
  unfolding renew_job
  renew_job-IsTable i owner lease now = elim (Option-cases (find (holds_lease i owner) t)) [
    | inl n ↦ rw (n, renew_job) h
    | inr (r, e) ↦
        rw (e, renew_job)
          (update-IsTable max_queued (holds_lease i owner) (renewed lease now) t (λ _. refl)
            (λ r m y k. renewed-IsRow i owner lease now r y k) (λ r m y a. a) h)
  ]

  update_job_progress-IsTable :
      (i current total : ℕ) → IsTable max_queued (update_job_progress i current total t)
  unfolding update_job_progress
  update_job_progress-IsTable i current total =
      update-IsTable max_queued (has_id i)
        (λ r. record r { progress_current = current; progress_total = total }) t (λ _. refl)
        (λ r m y k. ground arith) (λ r m y a. a) h

  cancel_job-IsTable : (i now : ℕ) → IsTable max_queued (cancel_job i now t).1
  unfolding cancel_job
  cancel_job-IsTable i now = elim (Option-cases (find (cancellable i) t)) [
    | inl n ↦ rw (n, cancel_job) h
    | inr (r, e) ↦
        rw (e, cancel_job)
          (update-IsTable max_queued (cancellable i) (cancelled_row now) t (λ r. ground arith)
            (λ r m y k. cancelled_row-IsRow i now r y k) (λ r m y a. ground arith) h)
  ]

  finish_job-IsTable :
      (i : ℕ) (s : JobState) (summary : Text) (now : ℕ)
      → IsTable max_queued (finish_job i s summary now t).1
  unfolding finish_job
  finish_job-IsTable i s summary now = elim (Bool-cases (is_terminal s)) [
    | inr n ↦ rw n h
    | inl y ↦ rw y (
        update-IsTable max_queued (has_id i) (finished s summary now) t (λ _. refl)
          (λ r m c k. finished-IsRow s summary now r y k)
          (λ r m c a. absurd (terminal_not_active s y a)) h)
  ]

-- Every operation of the store keeps the table well formed and the queue within its bound.
pub Step-IsTable :
    {max_queued : ℕ} {t u : Table}
    → Step max_queued t u
    → IsTable max_queued t
    → IsTable max_queued u
Step-IsTable (create fresh now j t new) h = create_job_bounded-IsTable _ t h fresh now j new
Step-IsTable (claim owner lease now t) h = claim_job-IsTable _ t h owner lease now
Step-IsTable (renew i owner lease now t) h = renew_job-IsTable _ t h i owner lease now
Step-IsTable (progress i current total t) h = update_job_progress-IsTable _ t h i current total
Step-IsTable (cancel i now t) h = cancel_job-IsTable _ t h i now
Step-IsTable (finish i s summary now t) h = finish_job-IsTable _ t h i s summary now

-- Every table that operations of the store reach from the empty one is well formed: identifiers are
-- distinct, the active jobs are within the bound, a job has a lease exactly while it runs, an end
-- time exactly when it has ended, and a running job has a start and an attempt.
pub Reach-IsTable : {max_queued : ℕ} {t : Table} → Reach max_queued [] t → IsTable max_queued t
unfolding active_count
Reach-IsTable here = record { rows = tt; distinct = tt; bounded = omega arith }
Reach-IsTable (next r s) = Step-IsTable s (Reach-IsTable r)
