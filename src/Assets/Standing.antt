-- ===== src/Assets/Standing.antt =====
-- internal/assets/resolver.go: the status of an asset after an observation is attached to it.
use corta_sentry.Prelude.{
  ℕ, ◌≡◌, refl, ap, subst, ◌∙◌, Bool, some, List, [], ◌∷◌, arith, Memᴰ, Bool-cases, inl, inr, any,
}
use corta_sentry.Assets.Inventory.{
  Identifier, Inventory, Asset, active, touch_asset, attach_observation, linked, add_identifier,
}
use corta_sentry.Assets.Resolve.{
  add_identifiers, decide, resolve, Observation, Resolution, Action, add_new, stored,
}
use corta_sentry.Assets.Repeat.{resolve-parts}

touch_asset-active :
    (i at : ℕ) (as' : List Asset) (a : Asset)
    → Memᴰ a (touch_asset i at as')
    → a.id ≡ i
    → a.status ≡ active
unfolding touch_asset
touch_asset-active i at [] a m e = elim m [ ]
touch_asset-active i at (b ∷ rest) a (Memᴰ.head q) e = ground arith
touch_asset-active i at (b ∷ rest) a (Memᴰ.tail m) e = touch_asset-active i at rest a m e

attach-assets :
    (a o address at : ℕ) (c : Bool) (inv inv' : Inventory)
    → attach_observation a o address at c inv ≡ some inv'
    → inv'.assets ≡ touch_asset a at inv.assets
unfolding attach_observation
attach-assets a o address at c inv inv' h = elim (Bool-cases (any (linked a o) inv.links)) [
  | inl y ↦ cc
  | inr n ↦ ground arith
]

add-assets :
    (a : ℕ) (o : Observation) (ids : List Identifier) (inv : Inventory)
    → (add_identifiers a o ids inv).assets ≡ inv.assets
unfolding add_identifiers add_identifier
add-assets a o [] inv = refl
add-assets a o (i ∷ ids) inv = add-assets a o ids (add_identifier a (stored o i) inv)

-- After a resolution the asset of the observation has the status `active`, also when the resolution
-- found an identity conflict and created the asset with the status `identity_conflict`.
pub resolve-active :
    (fresh : ℕ) (o : Observation) (ids : List Identifier) (inv inv' : Inventory) (r : Resolution)
    (act : Action)
    → resolve fresh o ids inv ≡ some (r, act, inv')
    → (a : Asset) → Memᴰ a inv'.assets
    → a.id ≡ r.asset
    → a.status ≡ active
resolve-active fresh o ids inv inv' r act h a m e =
    let (mid, er, ei, em) = resolve-parts fresh o ids inv inv' r act h in
    let with_new = add_new (decide fresh o ids inv).1 inv in
    let q : inv'.assets ≡ touch_asset r.asset o.observed_at with_new.assets =
      ap (λ (x : Inventory). x.assets) ei
      ∙ add-assets r.asset o ids mid
      ∙ attach-assets r.asset o.id o.target o.observed_at r.conflict with_new mid em in
    touch_asset-active r.asset o.observed_at with_new.assets a (subst (Memᴰ a) q m) e
