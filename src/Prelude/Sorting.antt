-- ===== src/Prelude/Sorting.antt =====
-- Removing repeats and sorting, as the Go code does with maps and `sort.Slice`.
use Prim.Native.Nat.{suc}
use mathlib.Core.Path.{◌≡◌, refl, ap, ◌∙◌}
use mathlib.Core.Logic.{inl, inr}
use mathlib.Core.Bool.{Bool, true, false, ◌||◌, cond}
use mathlib.Core.List.{List, [], ◌∷◌, ◌++◌, Perm}
use mathlib.Core.List.Perm
use native.Mathlib.Omega.{arith}
use corta_sentry.Prelude.Lists.{length, All, All-append}
use corta_sentry.Prelude.Tests.{Bool-cases}

module _ {ℓ} {A : Type ℓ} (eq : A → A → Bool) where
  unfoldable pub elem : A → List A → Bool
  elem a [] = false
  elem a (x ∷ xs) = eq x a || elem a xs

  -- `if !seen[x] { seen[x] = true; out = append(out, x) }`: what was seen is what was kept.
  unfoldable pub dedupe : List A → List A → List A
  unfolding elem
  dedupe out [] = out
  dedupe out (x ∷ xs) = dedupe (cond (elem x out) out (out ++ x ∷ [])) xs

  pub All-dedupe {κ} :
      (P : A → Type κ) (out xs : List A) → All P out → All P xs → All P (dedupe out xs)
  unfolding dedupe
  All-dedupe P out [] ho hx = ho
  All-dedupe P out (x ∷ xs) ho hx = elim (Bool-cases (elem x out)) [
    | inl e ↦ rw e (All-dedupe P out xs ho hx.1)
    | inr e ↦ rw e (All-dedupe P (out ++ x ∷ []) xs (All-append P out (x ∷ []) ho (hx.0, tt)) hx.1)
  ]

  -- No element equals a later one.
  abbrev pub IsDistinct : List A → Type 0
  IsDistinct [] = Unit
  IsDistinct (x ∷ xs) = (elem x xs ≡ false) × IsDistinct xs

  pub elem-append_one : (a x : A) (xs : List A) → elem a (xs ++ x ∷ []) ≡ (elem a xs || eq x a)
  unfolding elem
  elem-append_one a x [] = ground arith
  elem-append_one a x (y ∷ xs) = ground (arith, elem-append_one a x xs)

  module _ (eq_symm : (a b : A) → eq a b ≡ eq b a) where
    pub snoc-IsDistinct :
        (x : A) (xs : List A) → elem x xs ≡ false → IsDistinct xs → IsDistinct (xs ++ x ∷ [])
    unfolding elem
    snoc-IsDistinct x [] h d = (refl, tt)
    snoc-IsDistinct x (y ∷ xs) h d = (
      ground (arith, elem-append_one y x xs, eq_symm x y),
      snoc-IsDistinct x xs (ground arith) d.1,
    )

    pub dedupe-IsDistinct : (out xs : List A) → IsDistinct out → IsDistinct (dedupe out xs)
    unfolding dedupe
    dedupe-IsDistinct out [] d = d
    dedupe-IsDistinct out (x ∷ xs) d = elim (Bool-cases (elem x out)) [
      | inl e ↦ rw e (dedupe-IsDistinct out xs d)
      | inr e ↦ rw e (dedupe-IsDistinct (out ++ x ∷ []) xs (snoc-IsDistinct x out e d))
    ]

-- `sort.Slice` by a strict order, as an insertion sort.
module _ {ℓ} {A : Type ℓ} (less : A → A → Bool) where
  unfoldable pub insert_by : A → List A → List A
  insert_by a [] = a ∷ []
  insert_by a (x ∷ xs) = cond (less x a) (x ∷ insert_by a xs) (a ∷ x ∷ xs)

  unfoldable pub sort_by : List A → List A
  unfolding insert_by
  sort_by [] = []
  sort_by (x ∷ xs) = insert_by x (sort_by xs)

  All-insert_by {κ} :
      (P : A → Type κ) (a : A) (xs : List A) → P a → All P xs → All P (insert_by a xs)
  unfolding insert_by
  All-insert_by P a [] h hs = (h, tt)
  All-insert_by P a (x ∷ xs) h hs = elim (Bool-cases (less x a)) [
    | inl e ↦ rw e (hs.0, All-insert_by P a xs h hs.1)
    | inr e ↦ rw e (h, hs)
  ]

  length-insert_by : (a : A) (xs : List A) → length (insert_by a xs) ≡ suc (length xs)
  unfolding insert_by
  length-insert_by a [] = refl
  length-insert_by a (x ∷ xs) = ground (arith, length-insert_by a xs)

  pub length-sort_by : (xs : List A) → length (sort_by xs) ≡ length xs
  unfolding sort_by
  length-sort_by [] = refl
  length-sort_by (x ∷ xs) = length-insert_by x (sort_by xs) ∙ ap suc (length-sort_by xs)

  pub All-sort_by {κ} : (P : A → Type κ) (xs : List A) → All P xs → All P (sort_by xs)
  unfolding sort_by
  All-sort_by P [] h = h
  All-sort_by P (x ∷ xs) h = All-insert_by P x (sort_by xs) h.0 (All-sort_by P xs h.1)

  insert_by-perm : (a : A) (xs : List A) → Perm (insert_by a xs) (a ∷ xs)
  unfolding insert_by
  insert_by-perm a [] = Perm.refl _
  insert_by-perm a (x ∷ xs) = elim (Bool-cases (less x a)) [
    | inl e ↦ rw e (Perm.trans (Perm.cons x (insert_by-perm a xs)) (Perm.swap a x xs))
    | inr e ↦ rw e (Perm.refl _)
  ]

  pub sort_by-perm : (xs : List A) → Perm (sort_by xs) xs
  unfolding sort_by
  sort_by-perm [] = Perm.refl _
  sort_by-perm (x ∷ xs) = Perm.trans (insert_by-perm x (sort_by xs)) (Perm.cons x (sort_by-perm xs))

  -- No element is less than the one before it.
  abbrev pub IsSorted : List A → Type 0
  IsSorted [] = Unit
  IsSorted (x ∷ []) = Unit
  IsSorted (x ∷ y ∷ l) = (less y x ≡ false) × IsSorted (y ∷ l)

  module _ (asymm : (a b : A) → less a b ≡ true → less b a ≡ false) where
    insert_by-IsSorted : (a : A) (xs : List A) → IsSorted xs → IsSorted (insert_by a xs)
    unfolding insert_by
    insert_by-IsSorted a [] s = tt
    insert_by-IsSorted a (x ∷ []) s = ground (arith, asymm x a)
    insert_by-IsSorted a (x ∷ y ∷ xs) s = ground (arith, asymm x a, insert_by-IsSorted a (y ∷ xs))

    pub sort_by-IsSorted : (xs : List A) → IsSorted (sort_by xs)
    unfolding sort_by
    sort_by-IsSorted [] = tt
    sort_by-IsSorted (x ∷ xs) = insert_by-IsSorted x (sort_by xs) (sort_by-IsSorted xs)

  pub insert_by-elem :
      (eq : A → A → Bool) (a b : A) (xs : List A)
      → elem eq a (insert_by b xs) ≡ (eq b a || elem eq a xs)
  unfolding insert_by elem
  insert_by-elem eq a b [] = refl
  insert_by-elem eq a b (x ∷ xs) = ground (arith, insert_by-elem eq a b xs)

  insert_by-IsDistinct :
      (eq : A → A → Bool) (eq_symm : (a b : A) → eq a b ≡ eq b a) (a : A) (xs : List A)
      → elem eq a xs ≡ false
      → IsDistinct eq xs
      → IsDistinct eq (insert_by a xs)
  unfolding insert_by elem
  insert_by-IsDistinct eq eq_symm a [] h d = (refl, tt)
  insert_by-IsDistinct eq eq_symm a (x ∷ xs) h d = elim (Bool-cases (less x a)) [
    | inl e ↦ rw e (
      ground (arith, insert_by-elem eq x a xs, eq_symm x a),
      insert_by-IsDistinct eq eq_symm a xs (ground arith) d.1,
    )
    | inr e ↦ rw e (h, d)
  ]

  sort_by-elem : (eq : A → A → Bool) (a : A) (xs : List A) → elem eq a (sort_by xs) ≡ elem eq a xs
  unfolding sort_by elem
  sort_by-elem eq a [] = refl
  sort_by-elem eq a (x ∷ xs) =
      insert_by-elem eq a x (sort_by xs) ∙ ap (λ b. eq x a || b) (sort_by-elem eq a xs)

  pub sort_by-IsDistinct :
      (eq : A → A → Bool) (eq_symm : (a b : A) → eq a b ≡ eq b a) (xs : List A)
      → IsDistinct eq xs
      → IsDistinct eq (sort_by xs)
  unfolding sort_by
  sort_by-IsDistinct eq eq_symm [] d = tt
  sort_by-IsDistinct eq eq_symm (x ∷ xs) d =
      insert_by-IsDistinct eq eq_symm x (sort_by xs) (sort_by-elem eq x xs ∙ d.0)
        (sort_by-IsDistinct eq eq_symm xs d.1)
