-- ===== src/Assets/Repeat.antt =====
-- internal/assets/resolver.go: Resolve after a resolution with a conflict.
use corta_sentry.Prelude.{
  ℕ, ◌≡◌, ◌≢◌, refl, sym, ◌∙◌, Bool, true, false, Option, none, some, List, [], ◌∷◌, ◌==◌, arith,
  elem, Memᴰ, Bool-cases, Option-cases, inl, inr, any,
}
use corta_sentry.Assets.Inventory.{
  Kind, Identifier, IdRow, Inventory, Asset, assets_named, find_assets_by_identifier,
  attach_observation, create_asset, linked,
}
use corta_sentry.Assets.Resolve.{
  Gathered, nothing_gathered, gather, counts, with_continuity, choose, add_identifiers, strong_kind,
  decide, resolve, Observation, Resolution, Action, add_new,
}
use corta_sentry.Assets.Conflict.{
  Named, StrongRows, named_of_row, add-Named, add-StrongRows, add-HasRow, decide_conflict,
}

-- No identifier is stored for the asset.
abbrev pub owned : ℕ → IdRow → Bool
owned a r = r.asset == a

abbrev pub IsUnused : ℕ → List IdRow → Type 0
IsUnused a rows = any (owned a) rows ≡ false

unused-StrongRows : (a : ℕ) (rows : List IdRow) → IsUnused a rows → StrongRows a rows
unused-StrongRows a [] h = refl
unused-StrongRows a (r ∷ rows) h = ground (arith, unused-StrongRows a rows)

named-used :
    (k : Kind) (v a b : ℕ) (rows : List IdRow)
    → elem ◌==◌ b (assets_named k v rows) ≡ true
    → IsUnused a rows
    → (b == a) ≡ false
unfolding assets_named elem
named-used k v a b [] h u = cc
named-used k v a b (r ∷ rows) h u = ground (arith, named-used k v a b rows)

choose_fresh :
    (fresh : ℕ) (o : Observation) (g : Gathered) (ms : List ℕ) (continued : Bool)
    → (choose fresh o g ms continued).0.conflict ≡ true
    → (choose fresh o g ms continued).0.asset ≡ fresh
unfolding choose
choose_fresh fresh o g [] continued h = cc
choose_fresh fresh o g (x ∷ ms) continued h = ground arith

decide_fresh :
    (fresh : ℕ) (o : Observation) (ids : List Identifier) (inv : Inventory)
    → (decide fresh o ids inv).0.conflict ≡ true
    → (decide fresh o ids inv).0.asset ≡ fresh
unfolding decide
decide_fresh fresh o ids inv h =
    let g = gather inv nothing_gathered ids in
    let m = with_continuity inv o g in choose_fresh fresh o g m.0 m.1 h

-- What the attachment of an observation leaves of the table of identifiers.
pub add_new-identifiers :
    (d : Option Asset) (inv : Inventory) → (add_new d inv).identifiers ≡ inv.identifiers
unfolding add_new create_asset
add_new-identifiers none inv = refl
add_new-identifiers (some a) inv = refl

pub attach-identifiers :
    (a o address at : ℕ) (c : Bool) (inv inv' : Inventory)
    → attach_observation a o address at c inv ≡ some inv'
    → inv'.identifiers ≡ inv.identifiers
unfolding attach_observation
attach-identifiers a o address at c inv inv' h = elim (Bool-cases (any (linked a o) inv.links)) [
  | inl y ↦ cc
  | inr n ↦ ground arith
]

-- The parts of a resolution that took place.
pub resolve-parts :
    (fresh : ℕ) (o : Observation) (ids : List Identifier) (inv inv' : Inventory) (r : Resolution)
    (act : Action)
    → resolve fresh o ids inv ≡ some (r, act, inv')
    → (mid : Inventory) × (r ≡ (decide fresh o ids inv).0)
      × (inv' ≡ add_identifiers r.asset o ids mid)
      × (attach_observation r.asset o.id o.target o.observed_at r.conflict
            (add_new (decide fresh o ids inv).1 inv)
          ≡ some mid)
unfolding resolve
resolve-parts fresh o ids inv inv' r act h =
    let d = decide fresh o ids inv in
    elim (Option-cases
      (attach_observation d.0.asset o.id o.target o.observed_at d.0.conflict (add_new d.1 inv))) [
        | inl n ↦ absurd (ground arith)
        | inr (mid, e) ↦ (mid, ground arith, ground arith, ground arith)
      ]

counts_strong : (i j : Identifier) → j.kind ≡ i.kind → strong_kind i.kind ≡ true → counts j ≡ true
counts_strong i j k s = let t : strong_kind j.kind ≡ true = rw k s in ground arith

Named-other :
    (i : Identifier) (fresh a : ℕ) (inv : Inventory)
    → Named a i inv
    → IsUnused fresh inv.identifiers
    → a ≢ fresh
unfolding find_assets_by_identifier
Named-other i fresh a inv h u e =
    let f : (a == fresh) ≡ false = named-used i.kind i.value fresh a inv.identifiers h u in
    ground arith

Named-eq :
    (a : ℕ) (i j : Identifier) (inv : Inventory)
    → j.kind ≡ i.kind
    → j.value ≡ i.value
    → Named a i inv
    → Named a j inv
unfolding find_assets_by_identifier
Named-eq a i j inv k v h = rw (k, v) h

-- What the new asset of a conflict is named by, once the observation is stored.
pub new_asset-Named :
    (fresh : ℕ) (o : Observation) (ids : List Identifier) (inv mid : Inventory) (i : Identifier)
    → IsUnused fresh inv.identifiers
    → mid.identifiers ≡ inv.identifiers
    → Memᴰ i ids
    → strong_kind i.kind ≡ true
    → Named fresh i (add_identifiers fresh o ids mid)
unfolding find_assets_by_identifier
new_asset-Named fresh o ids inv mid i u e m s =
    named_of_row fresh i (add_identifiers fresh o ids mid).identifiers s
      (add-HasRow fresh o i ids mid m)
      (add-StrongRows fresh o ids mid (rw e (unused-StrongRows fresh inv.identifiers u)))

pub old_asset-Named :
    (fresh a : ℕ) (o : Observation) (ids : List Identifier) (inv mid : Inventory) (i : Identifier)
    → mid.identifiers ≡ inv.identifiers
    → Named a i inv
    → Named a i (add_identifiers fresh o ids mid)
unfolding find_assets_by_identifier
old_asset-Named fresh a o ids inv mid i e h = add-Named fresh o ids mid i a (rw e h)

-- If an observation is resolved as a conflict and one of its identifiers of a strong kind named an
-- asset before, then every later observation with that identifier is a conflict that creates one
-- more asset, given that no row of identifiers uses the first conflict's new identifier.
pub resolve_conflict_repeats :
    (fresh : ℕ) (o : Observation) (ids : List Identifier) (inv inv' : Inventory) (r : Resolution)
    (act : Action)
    → resolve fresh o ids inv ≡ some (r, act, inv')
    → IsUnused fresh inv.identifiers
    → r.conflict ≡ true
    → (i : Identifier) → Memᴰ i ids
    → strong_kind i.kind ≡ true
    → (a : ℕ) → Named a i inv
    → (fresh' : ℕ) (o' : Observation) (ids' : List Identifier) (j : Identifier) → Memᴰ j ids'
    → j.kind ≡ i.kind
    → j.value ≡ i.value
    → let r' = (decide fresh' o' ids' inv').0 in
      (r'.conflict ≡ true) × (r'.created ≡ true) × (r'.asset ≡ fresh')
unfolding find_assets_by_identifier
resolve_conflict_repeats fresh o ids inv inv' r act h u c i m s a n fresh' o' ids' j mj k v =
    let (mid, er, ei, em) = resolve-parts fresh o ids inv inv' r act h in
    let ef : r.asset ≡ fresh = rw er (decide_fresh fresh o ids inv (rw (sym er) c)) in
    let e : mid.identifiers ≡ inv.identifiers =
      attach-identifiers r.asset o.id o.target o.observed_at r.conflict
        (add_new (decide fresh o ids inv).1 inv) mid em
      ∙ add_new-identifiers (decide fresh o ids inv).1 inv in
    let after : inv' ≡ add_identifiers fresh o ids mid = rw (sym ef) ei in
    let sj : counts j ≡ true = counts_strong i j k s in
    let nf : Named fresh j inv' = rw after (
      Named-eq fresh i j (add_identifiers fresh o ids mid) k v
        (new_asset-Named fresh o ids inv mid i u e m s)) in
    let na : Named a j inv' = rw after (
      Named-eq a i j (add_identifiers fresh o ids mid) k v
        (old_asset-Named fresh a o ids inv mid i e n)) in
    decide_conflict fresh' o' ids' inv' j a fresh mj sj na nf (Named-other i fresh a inv n u)
