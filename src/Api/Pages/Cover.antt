-- ===== src/Api/Pages/Cover.antt =====
-- internal/api/api.go: the pages of a read, one after the other, are the whole answer.
use mathlib.Core.List.{map-append, Perm}
use mathlib.Core.List.Perm
use corta_sentry.Jobs.Stamp.{second, stamp_less, stamp_less_seconds, stamp_less_asymm}
use corta_sentry.Prelude.{
  Bool-cases, inl, inr, false, ◌/◌, IsSorted, sort_by-IsSorted, sort_by-perm, ℕ, zero, suc, ◌+◌,
  ◌-◌, ◌*◌, ◌%◌, ◌^◌, ◌≤◌, ◌<◌, ◌≡◌, refl, ap, ap₂, sym, ◌∙◌, true, ◌||◌, Option, List, [], ◌∷◌,
  ◌++◌, map, arith, ltb, if◌then◌else◌, take, drop, length, sort_by, select_where,
}
use corta_sentry.Scope.Address.{Addr}
use corta_sentry.Assets.Inventory.{LinkRow}
use corta_sentry.Records.Observations.{
  Observation, Source, Listed, list_observations, is_selected, is_newer, joined, with_asset,
  page_limit,
}
use corta_sentry.Api.Pages.{page, handle_observations}

module _ {ℓ} {A : Type ℓ} where
  take-add : (n m : ℕ) (xs : List A) → take (n + m) xs ≡ take n xs ++ take m (drop n xs)
  unfolding take drop
  take-add zero m xs = let e : 0 + m ≡ m = omega arith in rw e refl
  take-add (suc n) zero [] = let e : suc n + 0 ≡ suc n = omega arith in rw e refl
  take-add (suc n) (suc m) [] = let e : suc n + suc m ≡ suc (n + suc m) = omega arith in rw e refl
  take-add (suc n) m (x ∷ xs) =
      let e : suc n + m ≡ suc (n + m) = omega arith in
      rw e (ap (λ (l : List A). x ∷ l) (take-add n m xs))

  drop-drop : (n m : ℕ) (xs : List A) → drop m (drop n xs) ≡ drop (n + m) xs
  unfolding drop
  drop-drop zero m xs = let e : 0 + m ≡ m = omega arith in rw e refl
  drop-drop (suc n) zero [] = let e : suc n + 0 ≡ suc n = omega arith in rw e refl
  drop-drop (suc n) (suc m) [] = let e : suc n + suc m ≡ suc (n + suc m) = omega arith in rw e refl
  drop-drop (suc n) m (x ∷ xs) =
      let e : suc n + m ≡ suc (n + m) = omega arith in rw e (drop-drop n m xs)

  take_all : (n : ℕ) (xs : List A) → length xs ≤ n → take n xs ≡ xs
  unfolding take
  take_all zero [] h = refl
  take_all (suc n) [] h = refl
  take_all zero (x ∷ xs) h = absurd (omega arith)
  take_all (suc n) (x ∷ xs) h = ap (λ (l : List A). x ∷ l) (take_all n xs (omega arith))

-- The limit that a page has.
abbrev pub limit_of : ℕ → ℕ
limit_of l = if ltb l 1 || ltb 500 l then 100 else l

limit_bound : (l : ℕ) → (1 ≤ limit_of l) × (limit_of l ≤ 500)
limit_bound l = ground arith

small : (m : ℕ) → m < 2 ^ 63 → (m % 2 ^ 64 ≡ m) × (ltb m (2 ^ 63) ≡ true)
small m h = (omega arith, ground arith)

page_offset : (l i : ℕ) → i * limit_of l < 2 ^ 63 → page l (i + 1) ≡ (limit_of l, i * limit_of l)
unfolding page
page_offset l i h =
    let a : (if ltb (i + 1) 1 then 1 else i + 1) ≡ i + 1 = ground arith in
    let b : i + 1 - 1 ≡ i = omega arith in
    let (c, d) = small (i * limit_of l) h in rw (a, b) (rw c (rw d refl))

counts_of :
    (i k n b : ℕ)
    → (i + suc k) * n < b
    → (suc k * n ≡ n + k * n) × (i * n + n ≡ (i + 1) * n) × ((i + 1 + k) * n < b) × (i * n < b)
counts_of i k n b h =
    (grind arith, grind arith, (let e : i + 1 + k ≡ i + suc k = omega arith in rw e h), grind arith)

-- No row comes before one that was observed in a later second.
abbrev pub IsNewestFirst : List Observation → Type 0
IsNewestFirst [] = Unit
IsNewestFirst (o ∷ []) = Unit
IsNewestFirst (o ∷ p ∷ os) =
    (p.observed_at / second ≤ o.observed_at / second) × IsNewestFirst (p ∷ os)

seconds_of : (t u : ℕ) → stamp_less t u ≡ false → u / second ≤ t / second
seconds_of t u h = elim (Bool-cases (ltb (t / second) (u / second))) [
  | inl y ↦ (let s = stamp_less_seconds t u (ground arith) in absurd (cc))
  | inr n ↦ ground arith
]

newer_asymm : (a b : Listed) → is_newer a b ≡ true → is_newer b a ≡ false
newer_asymm a b h = stamp_less_asymm b.observation.observed_at a.observation.observed_at h

newest_first : (xs : List Listed) → IsSorted is_newer xs → IsNewestFirst (map with_asset xs)
newest_first [] h = tt
newest_first (x ∷ []) h = tt
newest_first (x ∷ y ∷ xs) h =
    (seconds_of x.observation.observed_at y.observation.observed_at h.0, newest_first (y ∷ xs) h.1)

module _ (asset : Option ℕ) (source : Option Source) (address : Option Addr) (l : ℕ)
    (links : List LinkRow) (t : List Observation) where
  -- The rows that the filters select.
  abbrev pub selected : List Listed
  selected =
      select_where
        (is_selected
          (record { asset = asset; source = source; address = address; limit = 0; offset = 0 }))
        (joined links t)

  -- These rows in the order of the store.
  abbrev pub matching : List Observation
  matching = map with_asset (
      sort_by is_newer (
        select_where
          (is_selected
            (record { asset = asset; source = source; address = address; limit = 0; offset = 0 }))
          (joined links t)))

  -- The pages from number `i + 1` on, `k` of them.
  unfoldable pub pages_from : ℕ → ℕ → List Observation
  pages_from i zero = []
  pages_from i (suc k) =
      handle_observations asset source address l (i + 1) links t ++ pages_from (i + 1) k

  abbrev pub sorted : List Listed
  sorted = sort_by is_newer (
      select_where
        (is_selected
          (record { asset = asset; source = source; address = address; limit = 0; offset = 0 }))
        (joined links t))

  abbrev read : ℕ × ℕ → List Observation
  read x =
      list_observations
        (record { asset = asset; source = source; address = address; limit = x.0; offset = x.1 })
        links t

  read-sorted :
      (n m : ℕ) → page_limit 500 100 n ≡ n → read (n, m) ≡ map with_asset (take n (drop m sorted))
  unfolding list_observations
  read-sorted n m f = ap (λ (k : ℕ). map with_asset (take k (drop m sorted))) f

  one_page :
      (i : ℕ)
      → i * limit_of l < 2 ^ 63
      → handle_observations asset source address l (i + 1) links t
        ≡ map with_asset (take (limit_of l) (drop (i * limit_of l) sorted))
  unfolding handle_observations
  one_page i h =
      let (lo, hi) = limit_bound l in
      ap read (page_offset l i h) ∙ read-sorted (limit_of l) (i * limit_of l) (ground arith)

  pages_cover :
      (i k : ℕ)
      → (i + k) * limit_of l < 2 ^ 63
      → pages_from i k ≡ map with_asset (take (k * limit_of l) (drop (i * limit_of l) sorted))
  unfolding pages_from take
  pages_cover i zero h = let e : 0 * limit_of l ≡ 0 = grind arith in rw e refl
  pages_cover i (suc k) h =
      let n = limit_of l in
      let (a, b, c, d) = counts_of i k n (2 ^ 63) h in
      let f = λ (xs : List Listed). map with_asset xs in
      let rest = drop (i * n) sorted in
      let u : drop n rest ≡ drop ((i + 1) * n) sorted =
        drop-drop (i * n) n sorted ∙ ap (λ (m : ℕ). drop m sorted) b in
      let q =
        pages_cover (i + 1) k c
        ∙ ap (λ (xs : List Listed). map with_asset (take (k * n) xs)) (sym u) in
      let r =
        ap (λ (m : ℕ). map with_asset (take m rest)) a
        ∙ ap f (take-add n (k * n) rest)
        ∙ map-append with_asset (take n rest) (take (k * n) (drop n rest)) in
      ap₂ (λ (xs ys : List Observation). xs ++ ys) (one_page i d) q ∙ sym r

  -- The first `k` pages that the API answers with, one after the other, are the rows that the
  -- filters select, each once, and no row stands before one observed in a later second, if `k`
  -- pages of the limit hold them all and the offset does not overflow.
  pub pages_from-matching :
      (k : ℕ)
      → length sorted ≤ k * limit_of l
      → k * limit_of l < 2 ^ 63
      → (pages_from 0 k ≡ matching)
        × Perm matching (map with_asset selected)
        × IsNewestFirst matching
  unfolding drop
  pages_from-matching k fits small_offset =
      let a : (0 + k) * limit_of l < 2 ^ 63 =
        (let e : 0 + k ≡ k = omega arith in rw e small_offset) in
      let z : drop (0 * limit_of l) sorted ≡ sorted =
        (let e : 0 * limit_of l ≡ 0 = grind arith in rw e refl) in
      (
        pages_cover 0 k a
            ∙ ap (λ (xs : List Listed). map with_asset (take (k * limit_of l) xs)) z
            ∙ ap (λ (xs : List Listed). map with_asset xs) (take_all (k * limit_of l) sorted fits),
        Perm.map with_asset (sort_by-perm is_newer selected),
        newest_first sorted (sort_by-IsSorted is_newer newer_asymm selected),
      )
