-- ===== src/Assets/Later.antt =====
-- internal/assets/resolver.go: Resolve after a resolution without a conflict and others after it.
use corta_sentry.Prelude.{
  ℕ, ◌≡◌, refl, sym, subst, ap, ◌∙◌, Bool, true, false, ◌&&◌, not, none, some, List, [], ◌∷◌, ◌==◌,
  arith, elem, Memᴰ, All, inl, inr, ◌⊎◌,
}
use corta_sentry.Assets.Inventory.{
  Kind, IdRow, Identifier, Inventory, kind_eq, assets_named, upsert_identifier, add_identifier,
  find_assets_by_identifier,
}
use corta_sentry.Assets.Resolve.{
  counts, strong_kind, decide, resolve, Observation, Resolution, Action, add_new, add_identifiers,
  stored,
}
use corta_sentry.Assets.Conflict.{add-Named}
use corta_sentry.Assets.Repeat.{resolve-parts, IsUnused, attach-identifiers, add_new-identifiers}
use corta_sentry.Assets.Stable.{NamesOnly, only_asset, add-only, decide_settled}
use corta_sentry.Assets.Persist.{AllName, resolve-AllName}

-- Two identifiers of different kinds or values.
abbrev pub differs : Identifier → Identifier → Bool
differs i k = not (kind_eq k.kind i.kind && k.value == i.value)

-- An observation with some of the identifiers, one of which counts as evidence, and no others that do.
pub record IsSighting (ids ids' : List Identifier) : Type 0 where
  pub within : (i : Identifier) → Memᴰ i ids' → counts i ≡ true → Memᴰ i ids
  pub evidence : Identifier
  pub carried : Memᴰ evidence ids'
  pub counted : counts evidence ≡ true

-- An observation with none of the identifiers.
abbrev pub IsUnrelated : List Identifier → List Identifier → Type 0
IsUnrelated ids ids' =
    (i : Identifier) → Memᴰ i ids → All (λ (k : Identifier). differs i k ≡ true) ids'

-- Any number of resolutions, each of an observation with some of the identifiers or with none.
pub data Later (ids : List Identifier) (s : Inventory) : Inventory → Type 0 where
  here : Later ids s s
  next :
      {t u : Inventory} (fresh : ℕ) (o : Observation) (ids' : List Identifier) (r : Resolution)
      (act : Action)
      → Later ids s t
      → resolve fresh o ids' t ≡ some (r, act, u)
      → (IsSighting ids ids') ⊎ (IsUnrelated ids ids')
      → Later ids s u

upsert-apart :
    (a : ℕ) (i k : Identifier) (rows : List IdRow)
    → differs i k ≡ true
    → assets_named i.kind i.value (upsert_identifier a k rows) ≡ assets_named i.kind i.value rows
unfolding assets_named upsert_identifier
upsert-apart a i k [] h = ground arith
upsert-apart a i k (r ∷ rows) h = ground (arith, upsert-apart a i k rows h)

add-apart :
    (a : ℕ) (o : Observation) (i : Identifier) (ids : List Identifier) (inv : Inventory)
    → All (λ (k : Identifier). differs i k ≡ true) ids
    → find_assets_by_identifier i.kind i.value (add_identifiers a o ids inv)
      ≡ find_assets_by_identifier i.kind i.value inv
unfolding add_identifiers add_identifier find_assets_by_identifier
add-apart a o i [] inv h = refl
add-apart a o i (k ∷ ids) inv h =
    add-apart a o i ids (add_identifier a (stored o k) inv) h.1
    ∙ upsert-apart a i (stored o k) inv.identifiers h.0

found_alike :
    (k : Kind) (v : ℕ) (s t : Inventory)
    → t.identifiers ≡ s.identifiers
    → find_assets_by_identifier k v t ≡ find_assets_by_identifier k v s
unfolding find_assets_by_identifier
found_alike k v s t e = ap (assets_named k v) e

abbrev Names : ℕ → List ℕ → Type 0
Names a found = (elem ◌==◌ a found ≡ true) × (only_asset a found ≡ true)

-- What one of these resolutions leaves of the names.
resolve_keeps :
    (a : ℕ) (ids : List Identifier) (s u : Inventory) (fresh : ℕ) (o : Observation)
    (ids' : List Identifier) (r : Resolution) (act : Action)
    → AllName a ids s
    → resolve fresh o ids' s ≡ some (r, act, u)
    → (IsSighting ids ids') ⊎ (IsUnrelated ids ids')
    → AllName a ids u
resolve_keeps a ids s u fresh o ids' r act n h k i m ci =
    let (mid, er, eu, em) = resolve-parts fresh o ids' s u r act h in
    let e : mid.identifiers ≡ s.identifiers =
      attach-identifiers r.asset o.id o.target o.observed_at r.conflict
        (add_new (decide fresh o ids' s).1 s) mid em
      ∙ add_new-identifiers (decide fresh o ids' s).1 s in
    let found : Names a (find_assets_by_identifier i.kind i.value mid) =
      subst (Names a) (sym (found_alike i.kind i.value s mid e)) (n i m ci) in
    elim k [
      | inl y ↦
          let d =
            decide_settled fresh o ids' s a (λ j mj cj. n j (y.within j mj cj) cj) y.evidence
              y.carried y.counted in
          let same : a ≡ r.asset = sym (ap (λ (x : Resolution). x.asset) er ∙ d.0) in
          rw eu (
            add-Named r.asset o ids' mid i a found.0,
            subst (λ (b : ℕ). NamesOnly a i (add_identifiers b o ids' mid)) same
                (add-only a o ids' mid i found.1),
          )
      | inr z ↦ rw eu (subst (Names a) (sym (add-apart r.asset o i ids' mid (z i m))) found)
    ]

later_keeps :
    (a : ℕ) (ids : List Identifier) (s : Inventory) {u : Inventory}
    → AllName a ids s
    → Later ids s u
    → AllName a ids u
later_keeps a ids s n here = n
later_keeps a ids s n (next {t} {u} fresh o ids' r act l h k) =
    resolve_keeps a ids t u fresh o ids' r act (later_keeps a ids s n l) h k

-- If an observation is resolved without a conflict, and all of its identifiers that count as
-- evidence are of strong kinds, then, after any later resolutions, each of an observation with none
-- of its identifiers or with evidence that is some of them, one whose evidence is some of them is
-- resolved to the same asset, with no creation and no conflict, given that no row of identifiers
-- uses the new identifier of the first resolution.
pub resolve_persists :
    (fresh : ℕ) (o : Observation) (ids : List Identifier) (inv inv' : Inventory) (r : Resolution)
    (act : Action)
    → resolve fresh o ids inv ≡ some (r, act, inv')
    → IsUnused fresh inv.identifiers
    → r.conflict ≡ false
    → ((i : Identifier) → Memᴰ i ids → counts i ≡ true → strong_kind i.kind ≡ true)
    → {u : Inventory} → Later ids inv' u
    → (fresh' : ℕ) (o' : Observation) (ids' : List Identifier) → IsSighting ids ids'
    → let d = decide fresh' o' ids' u in
      (d.0.asset ≡ r.asset) × (d.0.created ≡ false) × (d.0.conflict ≡ false) × (d.1 ≡ none)
resolve_persists fresh o ids inv inv' r act h u c strong_ids {u = after} later fresh' o' ids' y =
    let n =
      later_keeps r.asset ids inv' (resolve-AllName fresh o ids inv inv' r act h u c strong_ids)
        later in
    decide_settled fresh' o' ids' after r.asset (λ j mj cj. n j (y.within j mj cj) cj) y.evidence
      y.carried y.counted
