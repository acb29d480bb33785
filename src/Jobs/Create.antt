-- ===== src/Jobs/Create.antt =====
-- internal/storage/sqlite/store.go: CreateJobBounded, the bound of the queue, and creation under an idempotency key.
use corta_sentry.Prelude.{
  ℕ, ◌<◌, ◌≤◌, ◌≡◌, ◌≢◌, sym, ap, ap₂, ◌∙◌, some, [], ◌∷◌, ◌++◌, arith, leb, ◌==◌, Bool-cases,
  Option-cases, inl, inr, ◌⊎◌, Result, ok, err,
}
use corta_sentry.Jobs.Model.{
  Job, Table, NewJob, JobType, StoreError, find, has_key, active_count, queue_full,
}
use corta_sentry.Jobs.Table.{create_job_bounded, insert_bounded, new_row, known_job}
use corta_sentry.Jobs.Rows.{find-append_missing}

new_row_found :
    (fresh now : ℕ) (j : NewJob)
    → find (has_key j.type j.idempotency_key) (new_row fresh now j ∷ [])
      ≡ some (new_row fresh now j)
unfolding find
new_row_found fresh now j = ground arith

module _ (fresh now max_queued : ℕ) (j : NewJob) (t : Table) where
  create_known :
      {r : Job}
      → j.idempotency_key ≢ 0
      → find (has_key j.type j.idempotency_key) t ≡ some r
      → create_job_bounded fresh now max_queued j t ≡ (ok (known_job r j), t)
  unfolding create_job_bounded
  create_known k e = ground arith

  -- What a creation answers and does: the job that has the key, or else a refusal of a full queue,
  -- or else a new row at the end of the table.
  pub create_job_bounded_lem :
      ((r : Job) × (j.idempotency_key ≢ 0)
        × (find (has_key j.type j.idempotency_key) t ≡ some r)
        × (create_job_bounded fresh now max_queued j t ≡ (ok (known_job r j), t)))
      ⊎ ((max_queued ≤ active_count t)
          × (create_job_bounded fresh now max_queued j t ≡ (err queue_full, t)))
      ⊎ ((active_count t < max_queued)
          × (create_job_bounded fresh now max_queued j t
              ≡ (ok (new_row fresh now j), t ++ new_row fresh now j ∷ [])))
  unfolding create_job_bounded insert_bounded
  create_job_bounded_lem = elim (Option-cases (find (has_key j.type j.idempotency_key) t)) [
    | inl n ↦ elim (Bool-cases (leb max_queued (active_count t))) [
      | inl full ↦ inr (inl (ground arith))
      | inr room ↦ inr (inr (ground arith))
    ]
    | inr (r, e) ↦ elim (Bool-cases (j.idempotency_key == 0)) [
      | inr k ↦ inl (r, ground arith, e, ground arith)
      | inl z ↦ elim (Bool-cases (leb max_queued (active_count t))) [
        | inl full ↦ inr (inl (ground arith))
        | inr room ↦ inr (inr (ground arith))
      ]
    ]
  ]

  key_kept :
      {r : Job}
      → j.idempotency_key ≢ 0
      → (create_job_bounded fresh now max_queued j t).0 ≡ ok r
      → (s : Job) × (find
            (has_key j.type j.idempotency_key)
            (create_job_bounded fresh now max_queued j t).1
          ≡ some s)
        × (s.id ≡ r.id)
  unfolding create_job_bounded insert_bounded
  key_kept {r} k h = elim (Option-cases (find (has_key j.type j.idempotency_key) t)) [
    | inr (s, e) ↦ (s, ground arith, ground arith)
    | inl n ↦ (
      new_row fresh now j,
      ground (
        arith,
        find-append_missing (has_key j.type j.idempotency_key) t (new_row fresh now j ∷ []) n,
        new_row_found fresh now j,
      ),
      ground arith,
    )
  ]

-- After a successful creation with a nonempty key, another creation with the same type and key
-- answers with the same job's identifier and leaves the table as it is.
pub create_job_bounded_idempotent :
    (fresh now max_queued : ℕ) (j : NewJob) (t : Table) (fresh' now' max_queued' : ℕ) (j' : NewJob)
    {r : Job}
    → j.idempotency_key ≢ 0
    → (create_job_bounded fresh now max_queued j t).0 ≡ ok r
    → j'.type ≡ j.type
    → j'.idempotency_key ≡ j.idempotency_key
    → let t' = (create_job_bounded fresh now max_queued j t).1 in
      let again = create_job_bounded fresh' now' max_queued' j' t' in
      (again.1 ≡ t') × ((r' : Job) × (again.0 ≡ ok r') × (r'.id ≡ r.id))
create_job_bounded_idempotent fresh now max_queued j t fresh' now' max_queued' j' k h ty key =
    let t' = (create_job_bounded fresh now max_queued j t).1 in
    let (s, e, same) = key_kept fresh now max_queued j t k h in
    let e' : find (has_key j'.type j'.idempotency_key) t' ≡ some s =
      ap₂ (λ (a : JobType) (b : ℕ). find (has_key a b) t') ty key ∙ e in
    let q = create_known fresh' now' max_queued' j' t' (λ z. k (sym key ∙ z)) e' in
    (
      ap (λ (x : Result StoreError Job × Table). x.1) q,
      (known_job s j', ap (λ (x : Result StoreError Job × Table). x.0) q, same),
    )
