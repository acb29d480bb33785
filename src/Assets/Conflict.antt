-- ===== src/Assets/Conflict.antt =====
-- internal/assets/resolver.go: when Resolve decides on a conflict, and the rows of identifiers.
use corta_sentry.Prelude.{
  ℕ, ◌≡◌, ◌≢◌, Bool, true, false, ◌||◌, not, List, [], ◌∷◌, ◌==◌, arith, elem, Memᴰ, any, all,
}
use corta_sentry.Assets.Inventory.{
  Kind, Identifier, IdRow, Inventory, assets_named, find_assets_by_identifier, kind_eq, kind_code,
  is_strong, upsert_identifier, add_identifier, same_identifier,
}
use corta_sentry.Assets.Resolve.{
  Gathered, nothing_gathered, gather, counts, with_continuity, add_identifiers, stored, strong_kind,
  decide, Observation,
}
use corta_sentry.Assets.Matches.{gather_adds, choose_conflict, Matched, not_empty}

-- An asset with the identifier, found by the lookup of the resolver.
abbrev pub Named : ℕ → Identifier → Inventory → Type 0
Named a i inv = elem ◌==◌ a (find_assets_by_identifier i.kind i.value inv) ≡ true

pub with_continuity_keeps :
    (inv : Inventory) (o : Observation) (g : Gathered) (a : ℕ)
    → Matched a g
    → with_continuity inv o g ≡ (g.matches, false)
unfolding with_continuity
with_continuity_keeps inv o g a h = ground (arith, not_empty a g.matches h)

-- If two assets carry one identifier of an observation that counts as evidence, the resolution is a
-- conflict and creates a new asset.
pub decide_conflict :
    (fresh : ℕ) (o : Observation) (ids : List Identifier) (inv : Inventory) (i : Identifier)
    (a b : ℕ)
    → Memᴰ i ids
    → counts i ≡ true
    → Named a i inv
    → Named b i inv
    → a ≢ b
    → let r = (decide fresh o ids inv).0 in
      (r.conflict ≡ true) × (r.created ≡ true) × (r.asset ≡ fresh)
unfolding decide
decide_conflict fresh o ids inv i a b m c ha hb n =
    let g = gather inv nothing_gathered ids in
    let ga = gather_adds a inv i nothing_gathered ids m c ha in
    let gb = gather_adds b inv i nothing_gathered ids m c hb in
    rw (with_continuity_keeps inv o g a ga) (choose_conflict fresh o g g.matches false a b n ga gb)

-- The asset has a row for the identifier, whatever its strength.
abbrev pub HasRow : ℕ → Identifier → List IdRow → Type 0
HasRow a i rows = any (same_identifier a i) rows ≡ true

-- The rows of the asset that have a strong kind are marked strong.
abbrev pub row_is_strong : ℕ → IdRow → Bool
row_is_strong a r =
    not (r.asset == a) || (not (strong_kind r.ident.kind) || is_strong r.ident.strength)

abbrev pub StrongRows : ℕ → List IdRow → Type 0
StrongRows a rows = all (row_is_strong a) rows ≡ true

strong_kind_code : (j k : Kind) → kind_eq j k ≡ true → strong_kind j ≡ strong_kind k
unfolding strong_kind kind_code
strong_kind_code j k h = ground arith

pub named_of_row :
    (a : ℕ) (i : Identifier) (rows : List IdRow)
    → strong_kind i.kind ≡ true
    → HasRow a i rows
    → StrongRows a rows
    → elem ◌==◌ a (assets_named i.kind i.value rows) ≡ true
unfolding assets_named elem
named_of_row a i [] s h k = cc
named_of_row a i (r ∷ rows) s h k =
    ground (arith, strong_kind_code r.ident.kind i.kind, named_of_row a i rows s)

module _ (a : ℕ) (i : Identifier) where
  upsert-named :
      (rows : List IdRow) (k : Kind) (v b : ℕ)
      → elem ◌==◌ b (assets_named k v rows) ≡ true
      → elem ◌==◌ b (assets_named k v (upsert_identifier a i rows)) ≡ true
  unfolding assets_named upsert_identifier elem
  upsert-named [] k v b h = cc
  upsert-named (r ∷ rows) k v b h = ground (arith, upsert-named rows k v b)

  upsert-HasRow :
      (rows : List IdRow) (j : Identifier)
      → HasRow a j rows
      → HasRow a j (upsert_identifier a i rows)
  unfolding upsert_identifier
  upsert-HasRow [] j h = cc
  upsert-HasRow (r ∷ rows) j h = ground (arith, upsert-HasRow rows j)

  upsert-HasRow_self : (rows : List IdRow) → HasRow a i (upsert_identifier a i rows)
  unfolding upsert_identifier
  upsert-HasRow_self [] = ground arith
  upsert-HasRow_self (r ∷ rows) = ground (arith, upsert-HasRow_self rows)

  upsert-StrongRows :
      (rows : List IdRow)
      → (strong_kind i.kind ≡ true → is_strong i.strength ≡ true)
      → StrongRows a rows
      → StrongRows a (upsert_identifier a i rows)
  unfolding upsert_identifier
  upsert-StrongRows [] s h = ground arith
  upsert-StrongRows (r ∷ rows) s h = ground (arith, upsert-StrongRows rows s)

stored_is_strong :
    (o : Observation) (i : Identifier)
    → strong_kind (stored o i).kind ≡ true
    → is_strong (stored o i).strength ≡ true
stored_is_strong o i h = ground arith

module _ (a : ℕ) (o : Observation) where
  pub add-Named :
      (ids : List Identifier) (inv : Inventory) (i : Identifier) (b : ℕ)
      → Named b i inv
      → Named b i (add_identifiers a o ids inv)
  unfolding add_identifiers add_identifier find_assets_by_identifier
  add-Named [] inv i b h = h
  add-Named (j ∷ ids) inv i b h =
      add-Named ids (add_identifier a (stored o j) inv) i b
        (upsert-named a (stored o j) inv.identifiers i.kind i.value b h)

  pub add-StrongRows :
      (ids : List Identifier) (inv : Inventory)
      → StrongRows a inv.identifiers
      → StrongRows a (add_identifiers a o ids inv).identifiers
  unfolding add_identifiers add_identifier
  add-StrongRows [] inv h = h
  add-StrongRows (j ∷ ids) inv h =
      add-StrongRows ids (add_identifier a (stored o j) inv)
        (upsert-StrongRows a (stored o j) inv.identifiers (stored_is_strong o j) h)

  add-HasRow_keeps :
      (ids : List Identifier) (inv : Inventory) (i : Identifier)
      → HasRow a i inv.identifiers
      → HasRow a i (add_identifiers a o ids inv).identifiers
  unfolding add_identifiers add_identifier
  add-HasRow_keeps [] inv i h = h
  add-HasRow_keeps (j ∷ ids) inv i h =
      add-HasRow_keeps ids (add_identifier a (stored o j) inv) i
        (upsert-HasRow a (stored o j) inv.identifiers i h)

  pub add-HasRow :
      (i : Identifier) (ids : List Identifier) (inv : Inventory)
      → Memᴰ i ids
      → HasRow a i (add_identifiers a o ids inv).identifiers
  unfolding add_identifiers add_identifier
  add-HasRow i ids inv (Memᴰ.head {x = j} {xs = js} e) = rw e (
      add-HasRow_keeps js (add_identifier a (stored o j) inv) j
        (upsert-HasRow_self a (stored o j) inv.identifiers))
  add-HasRow i ids inv (Memᴰ.tail {x = j} {xs = js} m) =
      add-HasRow i js (add_identifier a (stored o j) inv) m
