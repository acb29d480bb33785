-- ===== src/Jobs/Orphan.antt =====
-- internal/storage/sqlite/store.go: a running job that is cancelled, under the steps of the table.
use corta_sentry.Prelude.{
  ℕ, ◌≡◌, ◌≢◌, refl, ap, ◌∙◌, Bool, true, false, some, [], ◌∷◌, arith, ◌==◌, Bool-cases,
  Option-cases, inl, inr, ok,
}
use corta_sentry.Jobs.Model.{Job, Table, NewJob, find, update, has_id, is_running, is_terminal}
use corta_sentry.Jobs.Table.{
  oldest, claimable, claimed, finished, renewed, holds_lease, cancellable, cancelled_row,
  create_job_bounded, insert_bounded, new_row, claim_job, finish_job, renew_job,
  update_job_progress, cancel_job,
}
use corta_sentry.Jobs.Rows.{
  DistinctIds, find-update, find-update_unmet, find-true, mem_of_find, oldest_lem, same_row,
  find-append_found,
}
use corta_sentry.Jobs.Claim.{claim_job-none, claim_job-some, claim_job_lem}
use corta_sentry.Jobs.Invariant.{Step, create, claim, renew, progress, cancel, finish}

-- A running job that was cancelled, whoever holds its lease.
pub record IsOrphan (i : ℕ) (t : Table) : Type 0 where
  pub row : Job
  pub found : find (has_id i) t ≡ some row
  pub runs : is_running row.state ≡ true
  pub requested : row.cancel_requested ≡ true

-- The step is no FinishJob on the job.
abbrev pub Spares : (i : ℕ) {m : ℕ} {t u : Table} → Step m t u → Type 0
Spares i (finish k s summary now t) = k ≢ i
Spares i (create fresh now j t new) = Unit
Spares i _ = Unit

-- Any number of such steps.
pub data ReachSparing (m i : ℕ) (s : Table) : Table → Type 0 where
  here : ReachSparing m i s s
  next :
      {t u : Table} → ReachSparing m i s t → (st : Step m t u) → Spares i st → ReachSparing m i s u

update-IsOrphan :
    (p : Job → Bool) (f : Job → Job) (i : ℕ) (t : Table)
    → ((r : Job) → (f r).id ≡ r.id)
    → ((r : Job)
        → p r ≡ true
        → is_running r.state ≡ true
        → r.cancel_requested ≡ true
        → (is_running (f r).state ≡ true) × ((f r).cancel_requested ≡ true))
    → IsOrphan i t
    → IsOrphan i (update p f t)
update-IsOrphan p f i t ids keep o = elim (Bool-cases (p o.row)) [
  | inl y ↦
      let k = keep o.row y o.runs o.requested in
      record {
        row = f o.row;
        found = rw (find-update p f ids i t, o.found, y);
        runs = k.0;
        requested = k.1;
      }
  | inr n ↦ record {
    row = o.row;
    found = rw (find-update p f ids i t, o.found, n);
    runs = o.runs;
    requested = o.requested;
  }
]

orphan_not_claimable : (now : ℕ) (r : Job) → claimable now r ≡ true → r.cancel_requested ≡ true → ⊥
orphan_not_claimable now r c q = ground arith

-- No claim at any time picks an orphan.
orphan_not_chosen :
    (i now : ℕ) (t : Table) (r : Job) (o : IsOrphan i t)
    → DistinctIds t
    → oldest now t ≡ some r
    → has_id r.id o.row ≡ false
orphan_not_chosen i now t r o d e = elim (Bool-cases (has_id r.id o.row)) [
  | inr n ↦ n
  | inl y ↦
      let (c, m) = oldest_lem now t e in
      let same : o.row ≡ r = same_row r o.row t d m (mem_of_find (has_id i) t o.found) y in
      let c' : claimable now o.row ≡ true = rw same c in
      absurd (orphan_not_claimable now o.row c' o.requested)
]

pub find_id : (i : ℕ) (t : Table) (r : Job) → find (has_id i) t ≡ some r → r.id ≡ i
find_id i t r h = let q : (r.id == i) ≡ true = find-true (has_id i) t h in ground arith

create-find :
    (i fresh now m : ℕ) (j : NewJob) (t : Table) {r : Job}
    → find (has_id i) t ≡ some r
    → find (has_id i) (create_job_bounded fresh now m j t).1 ≡ some r
unfolding create_job_bounded insert_bounded
create-find i fresh now m j t {r} h =
    ground (arith, find-append_found (has_id i) t (new_row fresh now j ∷ []) {r = r})

create-IsOrphan :
    (i fresh now m : ℕ) (j : NewJob) (t : Table)
    → IsOrphan i t
    → IsOrphan i (create_job_bounded fresh now m j t).1
create-IsOrphan i fresh now m j t o = record {
  row = o.row;
  found = create-find i fresh now m j t o.found;
  runs = o.runs;
  requested = o.requested;
}

other_id : (k i : ℕ) (r : Job) → r.id ≡ i → k ≢ i → has_id k r ≡ false
other_id k i r e n = ground arith

same_id : (r s : Job) (i : ℕ) {k : ℕ} → k ≡ r.id → k ≡ i → s.id ≡ i → has_id r.id s ≡ true
same_id r s i p q e = ground arith

pub cancellable_miss :
    (i : ℕ) (s : Job) (t : Table) {r : Job}
    → find (has_id i) (s ∷ t) ≡ some r
    → is_running r.state ≡ true
    → cancellable i s ≡ false
    → (s.id == i) ≡ false
unfolding find
cancellable_miss i s t h a n = ground arith

-- Every step but the job's own FinishJob leaves an orphan an orphan.
pub Step-IsOrphan :
    (i : ℕ) {m : ℕ} {t u : Table} (st : Step m t u)
    → Spares i st
    → DistinctIds t
    → IsOrphan i t
    → IsOrphan i u
Step-IsOrphan i (create fresh now j t new) s d o = create-IsOrphan i fresh now _ j t o
Step-IsOrphan i (claim owner lease now t) s d o = elim (Option-cases (oldest now t)) [
  | inl n ↦ rw (claim_job-none owner lease now t d n) o
  | inr (r, e) ↦ rw (claim_job-some owner lease now t d r e) (
      update-IsOrphan (has_id r.id) (claimed owner lease now) i t (λ _. refl) (λ x y a b. (refl, b))
        o)
]
Step-IsOrphan i (renew k owner lease now t) s d o =
    elim (Option-cases (find (holds_lease k owner) t)) [
      | inl n ↦ unfold renew_job in rw (n, renew_job) o
      | inr (r, e) ↦
          unfold renew_job in
          rw (e, renew_job)
            (update-IsOrphan (holds_lease k owner) (renewed lease now) i t (λ _. refl)
              (λ x y a b. (a, b)) o)
    ]
Step-IsOrphan i (progress k current total t) s d o =
    unfold update_job_progress in update-IsOrphan (has_id k) _ i t (λ _. refl) (λ x y a b. (a, b)) o
Step-IsOrphan i (cancel k now t) s d o = elim (Option-cases (find (cancellable k) t)) [
  | inl n ↦ unfold cancel_job in rw (n, cancel_job) o
  | inr (r, e) ↦
      unfold cancel_job in
      rw (e, cancel_job)
        (update-IsOrphan (cancellable k) (cancelled_row now) i t (λ r. ground arith)
          (λ x y a b. ground arith) o)
]
Step-IsOrphan i (finish k state summary now t) s d o = elim (Bool-cases (is_terminal state)) [
  | inr n ↦ unfold finish_job in rw n o
  | inl y ↦
      unfold finish_job in
      rw y (record {
        row = o.row;
        found =
            find-update_unmet (has_id k) (finished state summary now) (λ _. refl) i t
              (λ r e. other_id k i r (find_id i t r e) s)
            ∙ o.found;
        runs = o.runs;
        requested = o.requested;
      })
]

pub orphan_never_claimed :
    (i : ℕ) (t : Table)
    → IsOrphan i t
    → DistinctIds t
    → (owner lease now : ℕ) (j : Job) → (claim_job owner lease now t).0 ≡ ok j
    → j.id ≢ i
orphan_never_claimed i t o d owner lease now j c same =
    let (r, m, able, ret, found, others) = claim_job_lem owner lease now t d c in
    let q : j.id ≡ r.id = ap (λ (x : Job). x.id) ret in
    let y : has_id r.id o.row ≡ true = same_id r o.row i q same (find_id i t o.row o.found) in
    let e : o.row ≡ r = same_row r o.row t d m (mem_of_find (has_id i) t o.found) y in
    orphan_not_claimable now o.row (rw e able) o.requested
