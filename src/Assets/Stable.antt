-- ===== src/Assets/Stable.antt =====
-- internal/assets/resolver.go: Resolve on identifiers that all name one asset.
use corta_sentry.Prelude.{
  ℕ, ◌≡◌, refl, Bool, true, false, none, List, [], ◌∷◌, ◌==◌, arith, elem, Memᴰ, Bool-cases, inl,
  inr, ◌⊎◌, all,
}
use corta_sentry.Assets.Inventory.{
  Kind, Identifier, IdRow, Inventory, assets_named, find_assets_by_identifier, upsert_identifier,
  add_identifier,
}
use corta_sentry.Assets.Resolve.{
  Gathered, nothing_gathered, gather, gather_one, gather_found, counts, choose, add_identifiers,
  add_matches, stored, decide, Observation,
}
use corta_sentry.Assets.Matches.{gather_adds, not_empty}
use corta_sentry.Assets.Conflict.{Named, with_continuity_keeps}

-- The identifier names the asset and no other.
abbrev pub only_asset : ℕ → List ℕ → Bool
only_asset a found = all (λ b. b == a) found

abbrev pub NamesOnly : ℕ → Identifier → Inventory → Type 0
NamesOnly a i inv = only_asset a (find_assets_by_identifier i.kind i.value inv) ≡ true

-- What the loop has found is the asset or nothing, and every identifier named it.
abbrev Settled : ℕ → Gathered → Type 0
Settled a g = ((g.matches ≡ []) ⊎ (g.matches ≡ a ∷ [])) × (g.unmatched ≡ false)

add_matches_one :
    (a : ℕ) (found : List ℕ) → only_asset a found ≡ true → add_matches (a ∷ []) found ≡ a ∷ []
unfolding add_matches elem
add_matches_one a [] h = refl
add_matches_one a (b ∷ found) h = ground (arith, add_matches_one a found)

add_matches_settles :
    (a : ℕ) (ms found : List ℕ)
    → only_asset a found ≡ true
    → (ms ≡ []) ⊎ (ms ≡ a ∷ [])
    → (add_matches ms found ≡ []) ⊎ (add_matches ms found ≡ a ∷ [])
unfolding add_matches elem
add_matches_settles a ms [] h s = s
add_matches_settles a ms (b ∷ found) h (inl e) =
    rw e (inr (let q : b ≡ a = ground arith in rw q (add_matches_one a found (ground arith))))
add_matches_settles a ms (b ∷ found) h (inr e) = rw e (inr (add_matches_one a (b ∷ found) h))

gather_one_settles :
    (a : ℕ) (inv : Inventory) (g : Gathered) (i : Identifier)
    → (counts i ≡ true → Named a i inv × NamesOnly a i inv)
    → Settled a g
    → Settled a (gather_one inv g i)
unfolding gather_one gather_found
gather_one_settles a inv g i h s = elim (Bool-cases (counts i)) [
  | inl c ↦
      let found = find_assets_by_identifier i.kind i.value inv in
      (let (n, o) = h c in
        ground (arith, not_empty a found n, add_matches_settles a g.matches found o s.0))
  | inr n ↦ ground arith
]

gather_settles :
    (a : ℕ) (inv : Inventory) (g : Gathered) (ids : List Identifier)
    → ((i : Identifier) → Memᴰ i ids → counts i ≡ true → Named a i inv × NamesOnly a i inv)
    → Settled a g
    → Settled a (gather inv g ids)
unfolding gather
gather_settles a inv g [] h s = s
gather_settles a inv g (i ∷ ids) h s =
    gather_settles a inv (gather_one inv g i) ids (λ j m. h j (Memᴰ.tail m))
      (gather_one_settles a inv g i (h i (Memᴰ.head refl)) s)

choose_one :
    (fresh : ℕ) (o : Observation) (g : Gathered) (ms : List ℕ) (a : ℕ)
    → ms ≡ a ∷ []
    → g.unmatched ≡ false
    → let d = choose fresh o g ms false in
      (d.0.asset ≡ a) × (d.0.created ≡ false) × (d.0.conflict ≡ false) × (d.1 ≡ none)
unfolding choose
choose_one fresh o g ms a e u = rw (e, choose) (ground arith)

no_member : (a : ℕ) (ms : List ℕ) → ms ≡ [] → ¬ (elem ◌==◌ a ms ≡ true)
unfolding elem
no_member a [] e h = ground arith
no_member a (b ∷ ms) e h = cc

-- Identifiers that all name one asset and no other are resolved to it.
pub decide_settled :
    (fresh : ℕ) (o : Observation) (ids : List Identifier) (inv : Inventory) (a : ℕ)
    → ((i : Identifier) → Memᴰ i ids → counts i ≡ true → Named a i inv × NamesOnly a i inv)
    → (j : Identifier) → Memᴰ j ids
    → counts j ≡ true
    → let d = decide fresh o ids inv in
      (d.0.asset ≡ a) × (d.0.created ≡ false) × (d.0.conflict ≡ false) × (d.1 ≡ none)
unfolding decide
decide_settled fresh o ids inv a h j m c =
    let g = gather inv nothing_gathered ids in
    let ga = gather_adds a inv j nothing_gathered ids m c (h j m c).0 in
    let (s, u) = gather_settles a inv nothing_gathered ids h (inl refl, refl) in
    rw (with_continuity_keeps inv o g a ga) (elim s [
      | inl e ↦ absurd (no_member a g.matches e ga)
      | inr e ↦ choose_one fresh o g g.matches a e u
    ])

-- Storing identifiers for an asset lets no identifier name another asset.
module _ (a : ℕ) where
  upsert-only :
      (i : Identifier) (rows : List IdRow) (k : Kind) (v : ℕ)
      → only_asset a (assets_named k v rows) ≡ true
      → only_asset a (assets_named k v (upsert_identifier a i rows)) ≡ true
  unfolding assets_named upsert_identifier
  upsert-only i [] k v h = ground arith
  upsert-only i (r ∷ rows) k v h = ground (arith, upsert-only i rows k v)

  pub add-only :
      (o : Observation) (ids : List Identifier) (inv : Inventory) (j : Identifier)
      → NamesOnly a j inv
      → NamesOnly a j (add_identifiers a o ids inv)
  unfolding add_identifiers add_identifier find_assets_by_identifier
  add-only o [] inv j h = h
  add-only o (i ∷ ids) inv j h =
      add-only o ids (add_identifier a (stored o i) inv) j
        (upsert-only (stored o i) inv.identifiers j.kind j.value h)
