-- ===== src/Prelude/Members.antt =====
-- Boolean searches of a list against membership.
use mathlib.Core.Path.{◌≡◌, refl, sym}
use mathlib.Core.Logic.{◌↔◌, ◌⊎◌, inl, inr}
use mathlib.Core.Bool.{Bool, true, false}
use mathlib.Core.List.{List, [], ◌∷◌, ◌++◌, Memᴰ}
use native.Mathlib.Omega.{arith}
use corta_sentry.Prelude.Lists.{any, All}
use corta_sentry.Prelude.Sorting.{elem}
use corta_sentry.Prelude.Tests.{Bool-cases}

module _ {ℓ} {A : Type ℓ} where
  pub not-mem_nil : {a : A} → ¬ Memᴰ a []
  not-mem_nil m = elim m [ ]

  pub any→mem : (p : A → Bool) (xs : List A) → any p xs ≡ true → (x : A) × Memᴰ x xs × (p x ≡ true)
  any→mem p [] h = cc
  any→mem p (x ∷ xs) h = elim (Bool-cases (p x)) [
    | inl e ↦ (x, Memᴰ.head refl, e)
    | inr e ↦ let r = any→mem p xs (ground arith) in (r.0, Memᴰ.tail r.1, r.2)
  ]

  pub any-of_mem : (p : A → Bool) (x : A) (xs : List A) → Memᴰ x xs → p x ≡ true → any p xs ≡ true
  any-of_mem p x xs (Memᴰ.head {x = y} e) h = let q : p y ≡ true = rw (← e) h in rw q
  any-of_mem p x xs (Memᴰ.tail {x = y} {xs = ys} m) h = ground (arith, any-of_mem p x ys m h)

  pub not_any : (p : A → Bool) (xs : List A) → any p xs ≡ false → (x : A) → Memᴰ x xs → p x ≡ false
  not_any p xs h x m = elim (Bool-cases (p x)) [ inl e ↦ cc (any-of_mem p x xs m e) | inr e ↦ e ]

  pub any-false :
      (p : A → Bool) (xs : List A) → ((x : A) → Memᴰ x xs → p x ≡ false) → any p xs ≡ false
  any-false p xs h = elim (Bool-cases (any p xs)) [
    | inl e ↦ let r = any→mem p xs e in cc (h r.0 r.1)
    | inr e ↦ e
  ]

  pub All→mem {κ} : (P : A → Type κ) (x : A) (xs : List A) → All P xs → Memᴰ x xs → P x
  All→mem P x xs h (Memᴰ.head {x = y} e) = rw e h.0
  All→mem P x xs h (Memᴰ.tail {xs = ys} m) = All→mem P x ys h.1 m

  pub All-of_mem {κ} : (P : A → Type κ) (xs : List A) → ((x : A) → Memᴰ x xs → P x) → All P xs
  All-of_mem P [] h = tt
  All-of_mem P (x ∷ xs) h = (h x (Memᴰ.head refl), All-of_mem P xs (λ y m. h y (Memᴰ.tail m)))

  module _ (eq : A → A → Bool) (eq_iff : (a b : A) → (eq a b ≡ true) ↔ (a ≡ b)) where
    pub elem→mem : (a : A) (xs : List A) → elem eq a xs ≡ true → Memᴰ a xs
    unfolding elem
    elem→mem a [] h = cc
    elem→mem a (x ∷ xs) h = elim (Bool-cases (eq x a)) [
      | inl e ↦ Memᴰ.head (sym ((eq_iff x a).0 e))
      | inr e ↦ Memᴰ.tail (elem→mem a xs (ground arith))
    ]

    pub elem-of_mem : (a : A) (xs : List A) → Memᴰ a xs → elem eq a xs ≡ true
    unfolding elem
    elem-of_mem a xs (Memᴰ.head {x = y} e) = let q : eq y a ≡ true = (eq_iff y a).1 (sym e) in rw q
    elem-of_mem a xs (Memᴰ.tail {x = y} {xs = ys} m) = ground (arith, elem-of_mem a ys m)

    pub not_elem : (a : A) (xs : List A) → elem eq a xs ≡ false → ¬ Memᴰ a xs
    not_elem a xs h m = cc (elem-of_mem a xs m)

    pub elem-false : (a : A) (xs : List A) → ¬ Memᴰ a xs → elem eq a xs ≡ false
    elem-false a xs h = elim (Bool-cases (elem eq a xs)) [
      | inl e ↦ absurd (h (elem→mem a xs e))
      | inr e ↦ e
    ]

module _ {ℓ} {A : Type ℓ} where
  pub mem-append_left : (xs ys : List A) (a : A) → Memᴰ a xs → Memᴰ a (xs ++ ys)
  mem-append_left [] ys a m = elim m [ ]
  mem-append_left (x ∷ xs) ys a (Memᴰ.head e) = Memᴰ.head e
  mem-append_left (x ∷ xs) ys a (Memᴰ.tail m) = Memᴰ.tail (mem-append_left xs ys a m)

  pub mem-append_right : (xs ys : List A) (a : A) → Memᴰ a ys → Memᴰ a (xs ++ ys)
  mem-append_right [] ys a m = m
  mem-append_right (x ∷ xs) ys a m = Memᴰ.tail (mem-append_right xs ys a m)

  pub mem-append_cases : (xs ys : List A) (a : A) → Memᴰ a (xs ++ ys) → Memᴰ a xs ⊎ Memᴰ a ys
  mem-append_cases [] ys a m = inr m
  mem-append_cases (x ∷ xs) ys a (Memᴰ.head e) = inl (Memᴰ.head e)
  mem-append_cases (x ∷ xs) ys a (Memᴰ.tail m) = elim (mem-append_cases xs ys a m) [
    | inl k ↦ inl (Memᴰ.tail k)
    | inr k ↦ inr k
  ]
