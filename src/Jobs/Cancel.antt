-- ===== src/Jobs/Cancel.antt =====
-- internal/storage/sqlite/store.go: CancelJob on a running job, and the steps that may follow.
use corta_sentry.Prelude.{
  ℕ, ◌≤◌, ◌≡◌, Bool, true, false, some, [], ◌∷◌, arith, ◌==◌, Bool-cases, inl, inr, ok,
}
use corta_sentry.Jobs.Model.{
  Job, JobState, Table, find, has_id, active_count, is_active, is_running,
}
use corta_sentry.Jobs.Table.{cancellable, cancelled_row, claim_job, cancel_job}
use corta_sentry.Jobs.Rows.{find-update}
use corta_sentry.Jobs.Invariant.{cancel, IsTable, Step-IsTable}
use corta_sentry.Jobs.Orphan.{
  IsOrphan, ReachSparing, Step-IsOrphan, cancellable_miss, find_id, here, next,
  orphan_never_claimed,
}

active_of_found :
    (p : Job → Bool) (t : Table) {r : Job}
    → find p t ≡ some r
    → is_active r.state ≡ true
    → 1 ≤ active_count t
unfolding find active_count
active_of_found p [] h a = cc
active_of_found p (s ∷ t) {r} h a = ground (arith, active_of_found p t {r = r})

running-is_active : (s : JobState) → is_running s ≡ true → is_active s ≡ true
running-is_active s h = ground arith

Reach-IsOrphan :
    (i m : ℕ) {t u : Table}
    → ReachSparing m i t u
    → IsTable m t
    → IsOrphan i t
    → IsOrphan i u × IsTable m u
Reach-IsOrphan i m here w o = (o, w)
Reach-IsOrphan i m (next r st s) w o =
    let (o', w') = Reach-IsOrphan i m r w o in
    (Step-IsOrphan i st s w'.distinct o', Step-IsTable st w')

cancellable_found :
    (i : ℕ) (t : Table) {r : Job}
    → find (has_id i) t ≡ some r
    → is_running r.state ≡ true
    → (s : Job) × (find (cancellable i) t ≡ some s)
unfolding find
cancellable_found i [] h a = cc
cancellable_found i (s ∷ t) {r} h a = elim (Bool-cases (cancellable i s)) [
  | inl y ↦ (s, ground arith)
  | inr n ↦
      let e : (s.id == i) ≡ false = cancellable_miss i s t h a n in
      let (x, f) = cancellable_found i t {r = r} (ground arith) a in (x, ground arith)
]

cancel_job-IsOrphan :
    (i now : ℕ) (t : Table) (r : Job)
    → find (has_id i) t ≡ some r
    → is_running r.state ≡ true
    → IsOrphan i (cancel_job i now t).1
unfolding cancel_job
cancel_job-IsOrphan i now t r h a =
    let (s, f) = cancellable_found i t h a in
    let id : r.id ≡ i = find_id i t r h in
    rw (f, cancel_job)
      (record {
        row = cancelled_row now r;
        found =
            rw (find-update (cancellable i) (cancelled_row now) (λ x. ground arith) i t, h)
              (ground arith);
        runs = ground arith;
        requested = ground arith;
      })

-- After a running job of a well-formed table is cancelled, as long as no FinishJob names it, the
-- job stays running and counts against the bound, and no claim gets it.
pub cancelled_running_stuck :
    (i now m : ℕ) (t : Table) (r : Job) {u : Table}
    → IsTable m t
    → find (has_id i) t ≡ some r
    → is_running r.state ≡ true
    → ReachSparing m i (cancel_job i now t).1 u
    → IsOrphan i u
      × (1 ≤ active_count u)
      × (¬ (
          (owner : ℕ) × (lease : ℕ) × (now' : ℕ) × (j : Job) × ((claim_job owner lease now' u).0
            ≡ ok j)
          × (j.id ≡ i)))
cancelled_running_stuck i now m t r {u} w h a reach =
    let (o, w') =
      Reach-IsOrphan i m reach (Step-IsTable (cancel i now t) w)
        (cancel_job-IsOrphan i now t r h a) in
    (
      o,
      active_of_found (has_id i) u o.found (running-is_active o.row.state o.runs),
      λ (owner, lease, now', j, c, same).
          orphan_never_claimed i u o w'.distinct owner lease now' j c same,
    )
