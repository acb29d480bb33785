-- ===== src/Assets/Matches.antt =====
-- internal/assets/resolver.go: what the loop of Resolve over the identifiers has found, and when the switch sees a conflict.
use corta_sentry.Prelude.{
  ℕ, ◌≡◌, ◌≢◌, refl, subst, Bool, true, false, List, [], ◌∷◌, ◌++◌, ◌==◌, arith, if◌then◌else◌,
  elem, Memᴰ, Bool-cases, inl, inr,
}
use corta_sentry.Prelude.Sorting.{elem-append_one}
use corta_sentry.Assets.Inventory.{Identifier, Inventory, find_assets_by_identifier}
use corta_sentry.Assets.Resolve.{
  Gathered, add_matches, gather, gather_one, gather_found, counts, is_empty, choose, Observation,
}

add_matches_keeps :
    (a : ℕ) (ms found : List ℕ) → elem ◌==◌ a ms ≡ true → elem ◌==◌ a (add_matches ms found) ≡ true
unfolding add_matches
add_matches_keeps a ms [] h = h
add_matches_keeps a ms (b ∷ found) h =
    add_matches_keeps a (if elem ◌==◌ b ms then ms else ms ++ b ∷ []) found
      (ground (arith, elem-append_one ◌==◌ a b ms))

added :
    (a b : ℕ) (ms : List ℕ)
    → (b == a) ≡ true
    → elem ◌==◌ a (if elem ◌==◌ b ms then ms else ms ++ b ∷ []) ≡ true
added a b ms h = let e : b ≡ a = ground arith in ground (arith, elem-append_one ◌==◌ a b ms)

pub not_empty : (a : ℕ) (found : List ℕ) → elem ◌==◌ a found ≡ true → is_empty found ≡ false
unfolding elem
not_empty a [] h = cc
not_empty a (b ∷ found) h = refl

add_matches_adds :
    (a : ℕ) (ms found : List ℕ)
    → elem ◌==◌ a found ≡ true
    → elem ◌==◌ a (add_matches ms found) ≡ true
unfolding add_matches elem
add_matches_adds a ms [] h = cc
add_matches_adds a ms (b ∷ found) h = elim (Bool-cases (b == a)) [
  | inl here ↦
      add_matches_keeps a (if elem ◌==◌ b ms then ms else ms ++ b ∷ []) found (added a b ms here)
  | inr there ↦
      add_matches_adds a (if elem ◌==◌ b ms then ms else ms ++ b ∷ []) found (ground arith)
]

-- The asset is among the matches.
abbrev pub Matched : ℕ → Gathered → Type 0
Matched a g = elem ◌==◌ a g.matches ≡ true

gather_one_keeps :
    (a : ℕ) (inv : Inventory) (g : Gathered) (i : Identifier)
    → Matched a g
    → Matched a (gather_one inv g i)
unfolding gather_one gather_found
gather_one_keeps a inv g i h =
    ground (arith, add_matches_keeps a g.matches (find_assets_by_identifier i.kind i.value inv))

gather_keeps :
    (a : ℕ) (inv : Inventory) (g : Gathered) (ids : List Identifier)
    → Matched a g
    → Matched a (gather inv g ids)
unfolding gather
gather_keeps a inv g [] h = h
gather_keeps a inv g (i ∷ ids) h =
    gather_keeps a inv (gather_one inv g i) ids (gather_one_keeps a inv g i h)

gather_one_adds :
    (a : ℕ) (inv : Inventory) (g : Gathered) (i : Identifier)
    → counts i ≡ true
    → elem ◌==◌ a (find_assets_by_identifier i.kind i.value inv) ≡ true
    → Matched a (gather_one inv g i)
unfolding gather_one gather_found
gather_one_adds a inv g i c h =
    let found = find_assets_by_identifier i.kind i.value inv in
    ground (arith, not_empty a found h, add_matches_adds a g.matches found h)

-- Whatever else is looked up, an asset that a strong identifier names is matched.
pub gather_adds :
    (a : ℕ) (inv : Inventory) (i : Identifier) (g : Gathered) (ids : List Identifier)
    → Memᴰ i ids
    → counts i ≡ true
    → elem ◌==◌ a (find_assets_by_identifier i.kind i.value inv) ≡ true
    → Matched a (gather inv g ids)
unfolding gather
gather_adds a inv i g ids (Memᴰ.head {x = j} {xs = js} e) c h =
    gather_keeps a inv (gather_one inv g j) js
      (subst (λ x. Matched a (gather_one inv g x)) e (gather_one_adds a inv g i c h))
gather_adds a inv i g ids (Memᴰ.tail {x = j} {xs = js} m) c h =
    gather_adds a inv i (gather_one inv g j) js m c h

-- Two different assets among the matches make a conflict, and a new asset.
pub choose_conflict :
    (fresh : ℕ) (o : Observation) (g : Gathered) (ms : List ℕ) (continued : Bool) (a b : ℕ)
    → a ≢ b
    → elem ◌==◌ a ms ≡ true
    → elem ◌==◌ b ms ≡ true
    → ((choose fresh o g ms continued).0.conflict ≡ true)
      × ((choose fresh o g ms continued).0.created ≡ true)
      × ((choose fresh o g ms continued).0.asset ≡ fresh)
unfolding choose elem
choose_conflict fresh o g [] continued a b n h k = cc
choose_conflict fresh o g (x ∷ []) continued a b n h k = absurd (n (ground arith))
choose_conflict fresh o g (x ∷ y ∷ ms) continued a b n h k = ground arith
