-- ===== src/Prelude/Search.antt =====
-- A table as a list of rows: the first row that a condition holds of, and an update of rows.
use Prim.Native.Nat.{ℕ, zero, suc, ◌≤◌}
use mathlib.Core.Path.{◌≡◌, refl, ap, ◌∙◌}
use mathlib.Core.Bool.{Bool, true, false}
use mathlib.Core.Logic.{inl, inr, ◌⊎◌}
use mathlib.Core.Option.{Option, none, some}
use mathlib.Core.List.{List, [], ◌∷◌, ◌++◌, Memᴰ}
use native.Mathlib.Omega.{arith}
use corta_sentry.Prelude.Tests.{if◌then◌else◌, Bool-cases}
use corta_sentry.Prelude.Lists.{All, length, any}

module _ {ℓ} {A : Type ℓ} where
  -- SELECT ... WHERE p, of which the first row is read.
  unfoldable pub first : (A → Bool) → List A → Option A
  first p [] = none
  first p (x ∷ xs) = if p x then some x else first p xs

  -- UPDATE ... SET f WHERE p
  unfoldable pub update_where : (A → Bool) → (A → A) → List A → List A
  update_where p f [] = []
  update_where p f (x ∷ xs) = (if p x then f x else x) ∷ update_where p f xs

  -- DELETE ... WHERE p
  unfoldable pub delete_where : (A → Bool) → List A → List A
  delete_where p [] = []
  delete_where p (x ∷ xs) = let rest = delete_where p xs in if p x then rest else x ∷ rest

  pub first-true : (p : A → Bool) (xs : List A) {x : A} → first p xs ≡ some x → p x ≡ true
  unfolding first
  first-true p [] h = cc
  first-true p (y ∷ xs) {x} h = elim (Bool-cases (p y)) [
    | inl t ↦ ground arith
    | inr n ↦ first-true p xs {x = x} (ground arith)
  ]

  pub first→mem : (p : A → Bool) (xs : List A) {x : A} → first p xs ≡ some x → Memᴰ x xs
  unfolding first
  first→mem p [] h = cc
  first→mem p (y ∷ xs) {x} h = elim (Bool-cases (p y)) [
    | inl t ↦ Memᴰ.head (ground arith)
    | inr n ↦ Memᴰ.tail (first→mem p xs {x = x} (ground arith))
  ]

  pub first-append :
      (p : A → Bool) (xs : List A) (x : A)
      → first p xs ≡ none
      → p x ≡ true
      → first p (xs ++ x ∷ []) ≡ some x
  unfolding first
  first-append p [] x n t = ground arith
  first-append p (y ∷ xs) x n t = ground (arith, first-append p xs x)

  pub first-append_row :
      (p : A → Bool) (xs : List A) (x : A)
      → first p (xs ++ x ∷ [])
        ≡ (elim (first p xs) [ none ↦ if p x then some x else none | some y ↦ some y ])
  unfolding first
  first-append_row p [] x = refl
  first-append_row p (y ∷ xs) x = ground (arith, first-append_row p xs x)

  pub first-any :
      (p : A → Bool) (xs : List A) → any p xs ≡ (elim (first p xs) [ none ↦ false | some x ↦ true ])
  unfolding first
  first-any p [] = refl
  first-any p (x ∷ xs) = ground (arith, first-any p xs)

  -- A row after an update comes from a row before it.
  pub update_where-mem :
      (p : A → Bool) (f : A → A) (xs : List A) (y : A)
      → Memᴰ y (update_where p f xs)
      → (x : A) × Memᴰ x xs × (y ≡ (if p x then f x else x))
  unfolding update_where
  update_where-mem p f [] y m = elim m [ ]
  update_where-mem p f (x ∷ xs) y (Memᴰ.head e) = (x, Memᴰ.head refl, e)
  update_where-mem p f (x ∷ xs) y (Memᴰ.tail m) =
      let (z, k, e) = update_where-mem p f xs y m in (z, Memᴰ.tail k, e)

  pub append-mem_cases : (xs : List A) (x y : A) → Memᴰ y (xs ++ x ∷ []) → Memᴰ y xs ⊎ (y ≡ x)
  append-mem_cases [] x y (Memᴰ.head e) = inr e
  append-mem_cases [] x y (Memᴰ.tail m) = elim m [ ]
  append-mem_cases (z ∷ xs) x y (Memᴰ.head e) = inl (Memᴰ.head e)
  append-mem_cases (z ∷ xs) x y (Memᴰ.tail m) = elim (append-mem_cases xs x y m) [
    | inl k ↦ inl (Memᴰ.tail k)
    | inr e ↦ inr e
  ]

  pub first-update_where :
      (p q : A → Bool) (f : A → A) (xs : List A)
      → ((x : A) → p (f x) ≡ p x)
      → first p (update_where q f xs)
        ≡ (elim (first p xs) [ none ↦ none | some x ↦ some (if q x then f x else x) ])
  unfolding first update_where
  first-update_where p q f [] h = refl
  first-update_where p q f (x ∷ xs) h = ground (arith, h x, first-update_where p q f xs h)

  pub first-delete_where :
      (p q : A → Bool) (xs : List A) → first p xs ≡ none → first p (delete_where q xs) ≡ none
  unfolding first delete_where
  first-delete_where p q [] h = refl
  first-delete_where p q (x ∷ xs) h = ground (arith, first-delete_where p q xs)

  mem-cons_cases : (x y : A) (xs : List A) → Memᴰ y (x ∷ xs) → (y ≡ x) ⊎ Memᴰ y xs
  mem-cons_cases x y xs (Memᴰ.head e) = inl e
  mem-cons_cases x y xs (Memᴰ.tail m) = inr m

  -- A row that a deletion leaves does not meet its condition.
  pub delete_where-mem :
      (p : A → Bool) (xs : List A) (y : A) → Memᴰ y (delete_where p xs) → p y ≡ false
  unfolding delete_where
  delete_where-mem p [] y m = elim m [ ]
  delete_where-mem p (x ∷ xs) y m = elim (Bool-cases (p x)) [
    | inl t ↦ delete_where-mem p xs y (rw (t, delete_where) at m)
    | inr n ↦ elim (mem-cons_cases x y (delete_where p xs) (rw (n, delete_where) at m)) [
      | inl e ↦ ap p e ∙ n
      | inr k ↦ delete_where-mem p xs y k
    ]
  ]

  -- SELECT ... WHERE p
  unfoldable pub select_where : (A → Bool) → List A → List A
  select_where p [] = []
  select_where p (x ∷ xs) = let rest = select_where p xs in if p x then x ∷ rest else rest

  -- LIMIT n
  unfoldable pub take : ℕ → List A → List A
  take zero xs = []
  take (suc n) [] = []
  take (suc n) (x ∷ xs) = x ∷ take n xs

  -- OFFSET n
  unfoldable pub drop : ℕ → List A → List A
  drop zero xs = xs
  drop (suc n) [] = []
  drop (suc n) (x ∷ xs) = drop n xs

  pub length-take-le : (n : ℕ) (xs : List A) → length (take n xs) ≤ n
  unfolding take
  length-take-le zero xs = omega arith
  length-take-le (suc n) [] = omega arith
  length-take-le (suc n) (x ∷ xs) = omega (arith, length-take-le n xs)

  pub select_where-All : (p : A → Bool) (xs : List A) → All (λ x. p x ≡ true) (select_where p xs)
  unfolding select_where
  select_where-All p [] = tt
  select_where-All p (x ∷ xs) = elim (Bool-cases (p x)) [
    | inl t ↦ rw (t, select_where) (t, select_where-All p xs)
    | inr n ↦ rw (n, select_where) (select_where-All p xs)
  ]

  pub select_where-append :
      (p : A → Bool) (xs ys : List A)
      → select_where p (xs ++ ys) ≡ select_where p xs ++ select_where p ys
  unfolding select_where
  select_where-append p [] ys = refl
  select_where-append p (x ∷ xs) ys = ground (arith, select_where-append p xs ys)

  module _ {κ} (P : A → Type κ) where
    pub All-take : (n : ℕ) (xs : List A) → All P xs → All P (take n xs)
    unfolding take
    All-take zero xs h = tt
    All-take (suc n) [] h = tt
    All-take (suc n) (x ∷ xs) h = (h.0, All-take n xs h.1)

    pub All-drop : (n : ℕ) (xs : List A) → All P xs → All P (drop n xs)
    unfolding drop
    All-drop zero xs h = h
    All-drop (suc n) [] h = tt
    All-drop (suc n) (x ∷ xs) h = All-drop n xs h.1
