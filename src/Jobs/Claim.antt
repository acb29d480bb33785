-- ===== src/Jobs/Claim.antt =====
-- internal/storage/sqlite/store.go: ClaimJob, and who may work on a job.
use corta_sentry.Prelude.{
  ℕ, ◌+◌, ◌/◌, ◌<◌, ◌≡◌, ◌≢◌, refl, sym, ap, ◌∙◌, true, false, none, some, Memᴰ, arith, ◌==◌,
  Option-cases, inl, inr, ok, err,
}
use corta_sentry.Jobs.Model.{Job, Table, no_rows, find, update, has_id}
use corta_sentry.Jobs.Table.{oldest, claimable, claimed, claim_job}
use corta_sentry.Jobs.Stamp.{second, stamp_less, stamp_less_asymm, stamp_less_seconds}
use corta_sentry.Jobs.Rows.{
  DistinctIds, find-update, find-update_unmet, oldest_lem, find_of_mem, find-true,
  update-DistinctIds,
}

module _ (owner lease now : ℕ) (t : Table) (d : DistinctIds t) where
  find-claimed_self :
      (r : Job)
      → Memᴰ r t
      → find (has_id r.id) (update (has_id r.id) (claimed owner lease now) t)
        ≡ some (claimed owner lease now r)
  find-claimed_self r m =
      rw
        (
          find-update (has_id r.id) (claimed owner lease now) (λ _. refl) r.id t,
          find_of_mem r t d m,
        )
        (ground arith)

  find-claimed_other :
      (r : Job) (i : ℕ)
      → i ≢ r.id
      → find (has_id i) (update (has_id r.id) (claimed owner lease now) t) ≡ find (has_id i) t
  find-claimed_other r i ne =
      find-update_unmet (has_id r.id) (claimed owner lease now) (λ _. refl) i t
        (λ s e. let q : (s.id == i) ≡ true = find-true (has_id i) t e in ground arith)

  pub claim_job-none : oldest now t ≡ none → claim_job owner lease now t ≡ (err no_rows, t)
  unfolding claim_job
  claim_job-none n = rw (n, claim_job)

  pub claim_job-some :
      (r : Job)
      → oldest now t ≡ some r
      → claim_job owner lease now t
        ≡ (ok (claimed owner lease now r), update (has_id r.id) (claimed owner lease now) t)
  unfolding claim_job
  claim_job-some r e = rw (e, claim_job)

  pub claim_job-DistinctIds : DistinctIds (claim_job owner lease now t).1
  claim_job-DistinctIds = elim (Option-cases (oldest now t)) [
    | inl n ↦ rw (claim_job-none n) d
    | inr (r, e) ↦
        rw (claim_job-some r e)
          (update-DistinctIds (has_id r.id) (claimed owner lease now) (λ _. refl) t d)
  ]

module _ (owner lease now : ℕ) (t : Table) (d : DistinctIds t) {j : Job}
    (h : (claim_job owner lease now t).0 ≡ ok j) where
  -- What a successful claim did: the row it chose, the job it returned, and the rows it left.
  pub record Claimed (r : Job) : Type 0 where
    pub chosen : oldest now t ≡ some r
    pub was_claimable : claimable now r ≡ true
    pub stored : Memᴰ r t
    pub returned : j ≡ claimed owner lease now r
    pub table : (claim_job owner lease now t).1 ≡ update (has_id r.id) (claimed owner lease now) t

  claim_job_inverse : (r : Job) × Claimed r
  unfolding claim_job
  claim_job_inverse = elim (Option-cases (oldest now t)) [
    | inl n ↦ absurd (ground arith)
    | inr (r, e) ↦
        let l = oldest_lem now t e in
        (
          r,
          record {
            chosen = e;
            was_claimable = l.0;
            stored = l.1;
            returned = ground arith;
            table = ground arith;
          },
        )
  ]

  -- In a table with distinct identifiers, a successful claim takes a row that was claimable,
  -- answers with it and stores it with the claimant's lease, and leaves every other row as it was.
  pub claim_job_lem :
      (r : Job) × Memᴰ r t
      × (claimable now r ≡ true)
      × (j ≡ claimed owner lease now r)
      × (find (has_id j.id) (claim_job owner lease now t).1 ≡ some j)
      × ((i : ℕ) → i ≢ j.id → find (has_id i) (claim_job owner lease now t).1 ≡ find (has_id i) t)
  claim_job_lem =
      let (r, c) = claim_job_inverse in
      (
        r,
        c.stored,
        c.was_claimable,
        c.returned,
        rw (c.table, c.returned) (find-claimed_self owner lease now t d r c.stored),
        rw (c.table, c.returned) (find-claimed_other owner lease now t d r),
      )

module _ (owner lease now : ℕ) (t : Table) (d : DistinctIds t) {j : Job}
    (h : (claim_job owner lease now t).0 ≡ ok j) where
  not_claimable_again :
      (r r' : Job) (now' : ℕ)
      → claimable now' r' ≡ true
      → r' ≡ claimed owner lease now r
      → stamp_less (now + lease) now' ≡ false
      → ⊥
  not_claimable_again r r' now' c' was held = ground arith

  held_job_exclusive :
      (owner' lease' now' : ℕ) {j' : Job}
      → stamp_less (now + lease) now' ≡ false
      → (claim_job owner' lease' now' (claim_job owner lease now t).1).0 ≡ ok j'
      → j'.id ≢ j.id
  held_job_exclusive owner' lease' now' {j'} held h' same =
      let t' = (claim_job owner lease now t).1 in
      let d' = claim_job-DistinctIds owner lease now t d in
      let (r, m, c, ret, found, others) = claim_job_lem owner lease now t d h in
      let (r', m', c', ret', found', others') = claim_job_lem owner' lease' now' t' d' h' in
      let at : find (has_id r'.id) t' ≡ some r' = find_of_mem r' t' d' m' in
      let key : r'.id ≡ j.id = ap (λ (x : Job). x.id) (sym ret') ∙ same in
      let row : some r' ≡ some j = sym at ∙ ap (λ i. find (has_id i) t') key ∙ found in
      let was : r' ≡ claimed owner lease now r = (let q : r' ≡ j = cc row in q) ∙ ret in
      not_claimable_again r r' now' c' was held

  -- In a table with distinct identifiers, after a worker's claim of a job, another claim made in an
  -- earlier second than the one in which the first one's lease runs out never gets the same job,
  -- whoever makes it.
  pub claim_job_exclusive :
      (owner' lease' now' : ℕ) {j' : Job}
      → now' / second < (now + lease) / second
      → (claim_job owner' lease' now' (claim_job owner lease now t).1).0 ≡ ok j'
      → j'.id ≢ j.id
  claim_job_exclusive owner' lease' now' {j'} early h' =
      held_job_exclusive owner' lease' now'
        (stamp_less_asymm now' (now + lease) (stamp_less_seconds now' (now + lease) early)) h'
