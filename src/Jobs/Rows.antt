-- ===== src/Jobs/Rows.antt =====
-- Lemmas on the statements over the jobs table: find, update and oldest.
use corta_sentry.Prelude.{
  ℕ, ◌≤◌, ◌≡◌, refl, sym, ap, ◌∙◌, Bool, true, false, Option, none, some, [], ◌∷◌, ◌++◌, Memᴰ,
  arith, if◌then◌else◌, Bool-cases, Option-cases, inl, inr, All, subst,
}
use corta_sentry.Jobs.Model.{Job, Table, find, update, has_id, active_count, is_active}
use corta_sentry.Jobs.Table.{oldest, claimable}
use corta_sentry.Jobs.Stamp.{stamp_less, stamp_less_irrefl, stamp_less_asymm, stamp_less_trans}

-- The primary key: no two rows share an identifier.
abbrev pub DistinctIds : Table → Type 0
DistinctIds [] = Unit
DistinctIds (r ∷ t) = (find (has_id r.id) t ≡ none) × DistinctIds t

abbrev pub changed : (Job → Bool) → (Job → Job) → Job → Job
changed p f r = if p r then f r else r

abbrev pub map_found : (Job → Job) → Option Job → Option Job
map_found g none = none
map_found g (some r) = some (g r)

pub find-true : (p : Job → Bool) (t : Table) {r : Job} → find p t ≡ some r → p r ≡ true
unfolding find
find-true p [] h = cc
find-true p (s ∷ t) {r} h = elim (Bool-cases (p s)) [
  | inl y ↦ let e : s ≡ r = ground arith in rw (← e) y
  | inr n ↦ find-true p t (ground arith)
]

pub mem_of_find : (p : Job → Bool) (t : Table) {r : Job} → find p t ≡ some r → Memᴰ r t
unfolding find
mem_of_find p [] h = cc
mem_of_find p (s ∷ t) {r} h = elim (Bool-cases (p s)) [
  | inl y ↦ Memᴰ.head (ground arith)
  | inr n ↦ Memᴰ.tail (mem_of_find p t (ground arith))
]

pub not_found : (p : Job → Bool) (r : Job) (t : Table) → find p t ≡ none → Memᴰ r t → p r ≡ false
unfolding find
not_found p r t h (Memᴰ.head {x = s} {xs = l} e) = rw e (ground arith)
not_found p r t h (Memᴰ.tail {x = s} {xs = l} m) = not_found p r l (ground arith) m

-- A row of a table with a primary key is found by its identifier.
pub find_of_mem : (r : Job) (t : Table) → DistinctIds t → Memᴰ r t → find (has_id r.id) t ≡ some r
unfolding find
find_of_mem r t d (Memᴰ.head {x = s} {xs = l} e) = rw e (ground arith)
find_of_mem r t d (Memᴰ.tail {x = s} {xs = l} m) =
    ground (arith, not_found (has_id s.id) r l d.0 m, find_of_mem r l d.1 m)

-- Two rows of a table with a primary key that have one identifier are the same row.
pub same_row :
    (r s : Job) (t : Table) → DistinctIds t → Memᴰ r t → Memᴰ s t → has_id r.id s ≡ true → s ≡ r
same_row r s t d m n e =
    let key : s.id ≡ r.id = ground arith in
    let at : find (has_id s.id) t ≡ some r =
      ap (λ i. find (has_id i) t) key ∙ find_of_mem r t d m in
    cc (find_of_mem s t d n, at)

module _ (p : Job → Bool) (f : Job → Job) (keeps : (r : Job) → (f r).id ≡ r.id) where
  -- An update that keeps identifiers acts on the row that an identifier finds.
  pub find-update :
      (i : ℕ) (t : Table)
      → find (has_id i) (update p f t) ≡ map_found (changed p f) (find (has_id i) t)
  unfolding find update
  find-update i [] = refl
  find-update i (r ∷ t) = ground (arith, keeps r, find-update i t)

  -- A row that the condition does not meet is found unchanged.
  pub find-update_unmet :
      (i : ℕ) (t : Table)
      → ((r : Job) → find (has_id i) t ≡ some r → p r ≡ false)
      → find (has_id i) (update p f t) ≡ find (has_id i) t
  find-update_unmet i t h = elim (Option-cases (find (has_id i) t)) [
    | inl n ↦ rw (find-update i t, n)
    | inr (r, e) ↦ let q : p r ≡ false = h r e in rw (find-update i t, e, q)
  ]

  pub update-DistinctIds : (t : Table) → DistinctIds t → DistinctIds (update p f t)
  unfolding update
  update-DistinctIds [] d = tt
  update-DistinctIds (r ∷ t) d =
      (ground (arith, keeps r, find-update r.id t), update-DistinctIds t d.1)

module _ (p : Job → Bool) (f : Job → Job) where
  pub All-update {κ} :
      (P : Job → Type κ) (t : Table)
      → ((r : Job) → Memᴰ r t → p r ≡ true → P r → P (f r))
      → All P t
      → All P (update p f t)
  unfolding update
  All-update P [] keep h = tt
  All-update P (r ∷ t) keep h = elim (Bool-cases (p r)) [
    | inl y ↦ rw y (keep r (Memᴰ.head refl) y h.0, All-update P t (λ s m. keep s (Memᴰ.tail m)) h.1)
    | inr n ↦ rw n (h.0, All-update P t (λ s m. keep s (Memᴰ.tail m)) h.1)
  ]

  -- An update that makes no idle row active does not raise the count.
  pub active_count-update :
      (t : Table)
      → ((r : Job)
          → Memᴰ r t
          → p r ≡ true
          → is_active (f r).state ≡ true
          → is_active r.state ≡ true)
      → active_count (update p f t) ≤ active_count t
  unfolding update active_count
  active_count-update [] keep = omega arith
  active_count-update (r ∷ t) keep =
      ground (arith, keep r (Memᴰ.head refl), active_count-update t (λ s m. keep s (Memᴰ.tail m)))

pub find-append_found :
    (p : Job → Bool) (t u : Table) {r : Job} → find p t ≡ some r → find p (t ++ u) ≡ some r
unfolding find
find-append_found p [] u h = cc
find-append_found p (s ∷ t) u {r} h = ground (arith, find-append_found p t u {r = r})

pub find-append_missing :
    (p : Job → Bool) (t u : Table) → find p t ≡ none → find p (t ++ u) ≡ find p u
unfolding find
find-append_missing p [] u h = refl
find-append_missing p (s ∷ t) u h = ground (arith, find-append_missing p t u)

module _ (now : ℕ) where
  -- What `oldest` finds is a claimable row of the table.
  pub oldest_lem :
      (t : Table) {r : Job} → oldest now t ≡ some r → (claimable now r ≡ true) × Memᴰ r t
  unfolding oldest
  oldest_lem [] h = cc
  oldest_lem (s ∷ t) {r} h = elim (Bool-cases (claimable now s)) [
    | inr n ↦ let l = oldest_lem t (ground arith) in (l.0, Memᴰ.tail l.1)
    | inl y ↦ elim (Option-cases (oldest now t)) [
      | inl e ↦ let q : s ≡ r = ground arith in (rw (← q) y, Memᴰ.head (sym q))
      | inr (b, e) ↦ elim (Bool-cases (stamp_less b.created_at s.created_at)) [
        | inl older ↦
            let q : b ≡ r = ground arith in let l = oldest_lem t e in rw (← q) (l.0, Memᴰ.tail l.1)
        | inr newer ↦ let q : s ≡ r = ground arith in (rw (← q) y, Memᴰ.head (sym q))
      ]
    ]
  ]

  none-claimable : (t : Table) → oldest now t ≡ none → All (λ r. claimable now r ≡ false) t
  unfolding oldest
  none-claimable [] h = tt
  none-claimable (s ∷ t) h = elim (Option-cases (oldest now t)) [
    | inl e ↦ (ground arith, none-claimable t e)
    | inr (b, e) ↦ absurd (ground arith)
  ]

  -- No claimable row of the table was created before `c`.
  abbrev pub NoneBefore : ℕ → Table → Type 0
  NoneBefore c t = All (λ s. claimable now s ≡ true → stamp_less s.created_at c ≡ false) t

  no_rivals : (c : ℕ) (t : Table) → All (λ r. claimable now r ≡ false) t → NoneBefore c t
  no_rivals c [] h = tt
  no_rivals c (s ∷ t) h = (λ y. cc (h.0), no_rivals c t h.1)

  later_rivals : (b c : ℕ) → stamp_less b c ≡ false → (t : Table) → NoneBefore b t → NoneBefore c t
  later_rivals b c n [] h = tt
  later_rivals b c n (s ∷ t) h =
      (λ y. stamp_less_trans s.created_at b c (h.0 y) n, later_rivals b c n t h.1)

  -- Every claimable row was created no earlier, by the texts of the times, than the chosen one.
  pub oldest_first : (t : Table) {r : Job} → oldest now t ≡ some r → NoneBefore r.created_at t
  unfolding oldest
  oldest_first [] h = tt
  oldest_first (s ∷ t) {r} h = elim (Bool-cases (claimable now s)) [
    | inr n ↦ (ground arith, oldest_first t {r = r} (ground arith))
    | inl y ↦ elim (Option-cases (oldest now t)) [
      | inl e ↦
          let q : s ≡ r = ground arith in
          subst (λ (x : Job). NoneBefore x.created_at (s ∷ t)) q
            (λ _. stamp_less_irrefl s.created_at, no_rivals s.created_at t (none-claimable t e))
      | inr (b, e) ↦ elim (Bool-cases (stamp_less b.created_at s.created_at)) [
        | inl older ↦
            let q : b ≡ r = ground arith in
            subst (λ (x : Job). NoneBefore x.created_at (s ∷ t)) q
              (λ _. stamp_less_asymm b.created_at s.created_at older, oldest_first t e)
        | inr newer ↦
            let q : s ≡ r = ground arith in
            subst (λ (x : Job). NoneBefore x.created_at (s ∷ t)) q
              (
                λ _. stamp_less_irrefl s.created_at,
                later_rivals b.created_at s.created_at newer t (oldest_first t e),
              )
      ]
    ]
  ]

pub append-DistinctIds :
    (t : Table) (r : Job) → DistinctIds t → find (has_id r.id) t ≡ none → DistinctIds (t ++ r ∷ [])
unfolding find
append-DistinctIds [] r d h = (refl, tt)
append-DistinctIds (s ∷ t) r d h = (
  rw (find-append_missing (has_id s.id) t (r ∷ []) d.0) (ground arith),
  append-DistinctIds t r d.1 (ground arith),
)
