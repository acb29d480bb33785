-- ===== src/Jobs/Lease.antt =====
-- internal/storage/sqlite/store.go: RenewJob and FinishJob against the lease.
use corta_sentry.Prelude.{
  ℕ, ◌≡◌, refl, ap, ◌↔◌, true, none, some, [], ◌∷◌, arith, ◌==◌, Bool-cases, Option-cases,
  Result-cases, subst, inl, inr, Result, ok, err, Text,
}
use corta_sentry.Jobs.Model.{
  Job, JobState, StoreError, Table, find, has_id, lease_lost, is_terminal, is_running,
}
use corta_sentry.Jobs.Table.{finished, holds_lease, claim_job, finish_job, renew_job, job_state}
use corta_sentry.Jobs.Rows.{
  DistinctIds, find-update, find-true, mem_of_find, find_of_mem, update-DistinctIds,
}
use corta_sentry.Jobs.Claim.{claim_job_lem, claim_job-DistinctIds}

-- With a primary key, the row that a lease test finds is the row of the identifier.
holder_found :
    (i owner : ℕ) (t : Table) (r : Job)
    → DistinctIds t
    → find (has_id i) t ≡ some r
    → holds_lease i owner r ≡ true
    → find (holds_lease i owner) t ≡ some r
unfolding find
holder_found i owner [] r d h y = cc
holder_found i owner (s ∷ t) r d h y = elim (Bool-cases (has_id i s)) [
  | inl here ↦
      let q : s ≡ r = ground arith in let y' : holds_lease i owner s ≡ true = rw q y in ground arith
  | inr other ↦ ground (arith, holder_found i owner t r d.1)
]

holder-parts :
    (i owner : ℕ) (r : Job)
    → holds_lease i owner r ≡ true
    → (r.id ≡ i) × (is_running r.state ≡ true) × (r.lease_owner ≡ some owner)
holder-parts i owner r h = ground arith

holder_of_parts :
    (i owner : ℕ) (r : Job)
    → r.id ≡ i
    → is_running r.state ≡ true
    → r.lease_owner ≡ some owner
    → holds_lease i owner r ≡ true
holder_of_parts i owner r e a o = ground arith

find_id : (i : ℕ) (t : Table) (r : Job) → find (has_id i) t ≡ some r → r.id ≡ i
find_id i t r h = let q : (r.id == i) ≡ true = find-true (has_id i) t h in ground arith

module _ (i owner lease now : ℕ) (t : Table) (d : DistinctIds t) where
  renew_found :
      {r : Job} → find (holds_lease i owner) t ≡ some r → (renew_job i owner lease now t).0 ≡ ok tt
  unfolding renew_job
  renew_found e = rw (e, renew_job)

  renew_missing :
      find (holds_lease i owner) t ≡ none → renew_job i owner lease now t ≡ (err lease_lost, t)
  unfolding renew_job
  renew_missing e = rw (e, renew_job)

  -- A renewal succeeds exactly for the worker that holds the lease of a running job, and one that
  -- fails changes nothing.
  pub renew_job_lem :
      (((renew_job i owner lease now t).0 ≡ ok tt) ↔ (
        (r : Job) × (find (has_id i) t ≡ some r)
        × (is_running r.state ≡ true)
        × (r.lease_owner ≡ some owner)))
      × ((renew_job i owner lease now t).0 ≡ err lease_lost → (renew_job i owner lease now t).1 ≡ t)
  renew_job_lem = (
    (
      λ h. elim (Option-cases (find (holds_lease i owner) t)) [
        | inl n ↦ cc (renew_missing n)
        | inr (r, e) ↦
            let (k, a, o) = holder-parts i owner r (find-true (holds_lease i owner) t e) in
            let at = find_of_mem r t d (mem_of_find (holds_lease i owner) t e) in
            (r, subst (λ x. find (has_id x) t ≡ some r) k at, a, o)
      ],
      λ (r, f, a, o).
          renew_found
            (holder_found i owner t r d f (holder_of_parts i owner r (find_id i t r f) a o)),
    ),
    λ h. elim (Option-cases (find (holds_lease i owner) t)) [
      | inl n ↦ ap (λ (x : Result StoreError Unit × Table). x.1) (renew_missing n)
      | inr (r, e) ↦ cc (renew_found e)
    ],
  )

terminal_not_running : (s : JobState) → is_terminal s ≡ true → is_running s ≡ true → ⊥
terminal_not_running s y a = ground arith

module _ (i : ℕ) (s : JobState) (summary : Text) (now : ℕ) (t : Table) where
  pub finish-found :
      {r : Job}
      → is_terminal s ≡ true
      → find (has_id i) t ≡ some r
      → find (has_id i) (finish_job i s summary now t).1 ≡ some (finished s summary now r)
  unfolding finish_job
  finish-found {r} y h =
      let k : r.id ≡ i = find_id i t r h in
      rw (y, find-update (has_id i) (finished s summary now) (λ _. refl) i t, h) (ground arith)

  pub finish-DistinctIds : DistinctIds t → DistinctIds (finish_job i s summary now t).1
  unfolding finish_job
  finish-DistinctIds d = elim (Bool-cases (is_terminal s)) [
    | inl y ↦ rw y (update-DistinctIds (has_id i) (finished s summary now) (λ _. refl) t d)
    | inr n ↦ rw n d
  ]

state_of_found :
    (i : ℕ) (t : Table) {r : Job} → find (has_id i) t ≡ some r → job_state i t ≡ ok r.state
unfolding job_state
state_of_found i t h = rw (h, job_state)

renew_error :
    (i owner lease now : ℕ) (t : Table) {x : StoreError}
    → (renew_job i owner lease now t).0 ≡ err x
    → (renew_job i owner lease now t).0 ≡ err lease_lost
unfolding renew_job
renew_error i owner lease now t h = ground arith

module _ (owner lease now : ℕ) (t : Table) (d : DistinctIds t) {j : Job}
    (h : (claim_job owner lease now t).0 ≡ ok j) where
  -- In a table with distinct identifiers, FinishJob with a terminal state on a job that a worker
  -- has just claimed sets that state without asking for the lease, and the claimant's next renewal
  -- fails.
  pub finish_job-revokes :
      (s : JobState) (summary : Text) (later lease' now' : ℕ)
      → is_terminal s ≡ true
      → let u = (finish_job j.id s summary later (claim_job owner lease now t).1).1 in
        (job_state j.id u ≡ ok s) × ((renew_job j.id owner lease' now' u).0 ≡ err lease_lost)
  finish_job-revokes s summary later lease' now' y =
      let t' = (claim_job owner lease now t).1 in
      let (r, m, c, ret, found, others) = claim_job_lem owner lease now t d h in
      let at = finish-found j.id s summary later t' y found in
      let d' =
        finish-DistinctIds j.id s summary later t' (claim_job-DistinctIds owner lease now t d) in
      let v = (finish_job j.id s summary later t').1 in
      (
        state_of_found j.id v at,
        elim (Result-cases (renew_job j.id owner lease' now' v).0) [
          | inl (u, e) ↦
              let (x, f, a, o) = (renew_job_lem j.id owner lease' now' v d').0.0 e in
              absurd (terminal_not_running x.state (let q : x.state ≡ s = cc in rw q y) a)
          | inr (x, e) ↦ renew_error j.id owner lease' now' v e
        ],
      )
