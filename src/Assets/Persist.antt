-- ===== src/Assets/Persist.antt =====
-- internal/assets/resolver.go: Resolve after a resolution without a conflict.
use corta_sentry.Prelude.{
  ℕ, ◌≡◌, refl, sym, subst, ◌∙◌, Bool, true, false, some, List, [], ◌∷◌, ◌==◌, arith, elem, Memᴰ,
  Bool-cases, inl, inr, ◌⊎◌,
}
use corta_sentry.Assets.Inventory.{Identifier, Inventory, find_assets_by_identifier}
use corta_sentry.Assets.Resolve.{
  Gathered, nothing_gathered, gather, gather_one, gather_found, counts, with_continuity, choose,
  add_identifiers, strong_kind, decide, resolve, Observation, Resolution, Action, add_new, is_empty,
}
use corta_sentry.Assets.Matches.{gather_adds}
use corta_sentry.Assets.Conflict.{Named}
use corta_sentry.Assets.Repeat.{
  resolve-parts, IsUnused, attach-identifiers, add_new-identifiers, new_asset-Named,
  old_asset-Named,
}
use corta_sentry.Assets.Stable.{NamesOnly, only_asset, add-only}

module _ (inv : Inventory) where
  gather_supplied_keeps :
      (g : Gathered) (ids : List Identifier)
      → g.supplied ≡ true
      → (gather inv g ids).supplied ≡ true
  unfolding gather gather_one gather_found
  gather_supplied_keeps g [] h = h
  gather_supplied_keeps g (i ∷ ids) h =
      gather_supplied_keeps (gather_one inv g i) ids (ground arith)

  gather_supplied :
      (i : Identifier) (g : Gathered) (ids : List Identifier)
      → Memᴰ i ids
      → counts i ≡ true
      → (gather inv g ids).supplied ≡ true
  unfolding gather gather_one gather_found
  gather_supplied i g ids (Memᴰ.head {x = j} {xs = js} e) c =
      gather_supplied_keeps (gather_one inv g j) js
        (let d : counts j ≡ true = subst (λ (x : Identifier). counts x ≡ true) e c in ground arith)
  gather_supplied i g ids (Memᴰ.tail {x = j} {xs = js} m) c =
      gather_supplied i (gather_one inv g j) js m c

  gather_unmatched_keeps :
      (g : Gathered) (ids : List Identifier)
      → g.unmatched ≡ true
      → (gather inv g ids).unmatched ≡ true
  unfolding gather gather_one gather_found
  gather_unmatched_keeps g [] h = h
  gather_unmatched_keeps g (i ∷ ids) h =
      gather_unmatched_keeps (gather_one inv g i) ids (ground arith)

  gather_unmatched :
      (i : Identifier) (g : Gathered) (ids : List Identifier)
      → Memᴰ i ids
      → counts i ≡ true
      → is_empty (find_assets_by_identifier i.kind i.value inv) ≡ true
      → (gather inv g ids).unmatched ≡ true
  unfolding gather gather_one gather_found
  gather_unmatched i g ids (Memᴰ.head {x = j} {xs = js} e) c n =
      gather_unmatched_keeps (gather_one inv g j) js
        (subst (λ (x : Identifier). (gather_one inv g x).unmatched ≡ true) e (ground arith))
  gather_unmatched i g ids (Memᴰ.tail {x = j} {xs = js} m) c n =
      gather_unmatched i (gather_one inv g j) js m c n

supplied-continuity :
    (inv : Inventory) (o : Observation) (g : Gathered)
    → g.supplied ≡ true
    → with_continuity inv o g ≡ (g.matches, false)
unfolding with_continuity
supplied-continuity inv o g h = ground arith

choose_agrees :
    (fresh : ℕ) (o : Observation) (g : Gathered) (ms : List ℕ)
    → (choose fresh o g ms false).0.conflict ≡ false
    → ((ms ≡ []) × ((choose fresh o g ms false).0.asset ≡ fresh))
      ⊎ ((ms ≡ (choose fresh o g ms false).0.asset ∷ []) × (g.unmatched ≡ false))
unfolding choose
choose_agrees fresh o g [] h = inl (refl, refl)
choose_agrees fresh o g (a ∷ []) h = ground arith
choose_agrees fresh o g (a ∷ b ∷ ms) h = ground arith

only_of_elem :
    (a : ℕ) (found : List ℕ)
    → ((b : ℕ) → elem ◌==◌ b found ≡ true → b ≡ a)
    → only_asset a found ≡ true
unfolding elem
only_of_elem a [] h = refl
only_of_elem a (b ∷ found) h =
    let e : b ≡ a = h b (ground arith) in
    let r = only_of_elem a found (λ c m. h c (ground arith)) in ground arith

not_in_none : (b : ℕ) (ms : List ℕ) → ms ≡ [] → ¬ (elem ◌==◌ b ms ≡ true)
unfolding elem
not_in_none b [] e h = ground arith
not_in_none b (c ∷ ms) e h = cc

in_one : (b a : ℕ) (ms : List ℕ) → ms ≡ a ∷ [] → elem ◌==◌ b ms ≡ true → b ≡ a
unfolding elem
in_one b a ms e h = let k = subst (λ (l : List ℕ). elem ◌==◌ b l ≡ true) e h in ground arith

named_of_only :
    (a : ℕ) (found : List ℕ)
    → only_asset a found ≡ true
    → is_empty found ≡ false
    → elem ◌==◌ a found ≡ true
unfolding elem
named_of_only a [] h n = cc
named_of_only a (b ∷ found) h n = ground arith

agrees_at :
    (fresh a : ℕ) (inv : Inventory) (ids : List Identifier) (i : Identifier)
    → Memᴰ i ids
    → counts i ≡ true
    → let g = gather inv nothing_gathered ids in
      ((g.matches ≡ []) × (a ≡ fresh)) ⊎ ((g.matches ≡ a ∷ []) × (g.unmatched ≡ false))
      → NamesOnly a i inv × ((a ≡ fresh) ⊎ Named a i inv)
agrees_at fresh a inv ids i m c (inl (e, f)) = (
  only_of_elem a (find_assets_by_identifier i.kind i.value inv) (λ b n. absurd (
      not_in_none b (gather inv nothing_gathered ids).matches e
        (gather_adds b inv i nothing_gathered ids m c n))),
  inl f,
)
agrees_at fresh a inv ids i m c (inr (e, u)) =
    let found = find_assets_by_identifier i.kind i.value inv in
    let only = only_of_elem a found (λ b n.
      in_one b a (gather inv nothing_gathered ids).matches e
        (gather_adds b inv i nothing_gathered ids m c n)) in
    (
      only,
      inr (
          named_of_only a found only (elim (Bool-cases (is_empty found)) [
            | inl y ↦ (let t = gather_unmatched inv i nothing_gathered ids m c y in absurd (cc))
            | inr n ↦ n
          ])),
    )

-- What a resolution without a conflict says of the table it was made on.
decide-Agrees :
    (fresh : ℕ) (o : Observation) (ids : List Identifier) (inv : Inventory) (j : Identifier)
    → Memᴰ j ids
    → counts j ≡ true
    → (decide fresh o ids inv).0.conflict ≡ false
    → let a = (decide fresh o ids inv).0.asset in
      (i : Identifier)
      → Memᴰ i ids
      → counts i ≡ true
      → NamesOnly a i inv × ((a ≡ fresh) ⊎ Named a i inv)
unfolding decide
decide-Agrees fresh o ids inv j mj cj h i mi ci =
    let g = gather inv nothing_gathered ids in
    let w = supplied-continuity inv o g (gather_supplied inv j nothing_gathered ids mj cj) in
    let h' = subst (λ (m : List ℕ × Bool). (choose fresh o g m.0 m.1).0.conflict ≡ false) w h in
    rw w (
      agrees_at fresh (choose fresh o g g.matches false).0.asset inv ids i mi ci
        (choose_agrees fresh o g g.matches h'))

agrees_of :
    (fresh : ℕ) (o : Observation) (ids : List Identifier) (inv : Inventory) (r : Resolution)
    → r ≡ (decide fresh o ids inv).0
    → (j : Identifier) → Memᴰ j ids
    → counts j ≡ true
    → r.conflict ≡ false
    → (i : Identifier) → Memᴰ i ids
    → counts i ≡ true
    → NamesOnly r.asset i inv × ((r.asset ≡ fresh) ⊎ Named r.asset i inv)
agrees_of fresh o ids inv r er j mj cj c i mi ci =
    subst (λ (x : Resolution). NamesOnly x.asset i inv × ((x.asset ≡ fresh) ⊎ Named x.asset i inv))
      (sym er)
      (decide-Agrees fresh o ids inv j mj cj (subst (λ (x : Resolution). x.conflict ≡ false) er c) i
        mi ci)

stored_settles :
    (fresh a : ℕ) (o : Observation) (ids : List Identifier) (inv mid : Inventory) (i : Identifier)
    → Memᴰ i ids
    → mid.identifiers ≡ inv.identifiers
    → IsUnused fresh inv.identifiers
    → strong_kind i.kind ≡ true
    → NamesOnly a i inv × ((a ≡ fresh) ⊎ Named a i inv)
    → Named a i (add_identifiers a o ids mid) × NamesOnly a i (add_identifiers a o ids mid)
unfolding find_assets_by_identifier
stored_settles fresh a o ids inv mid i m e u s (only, k) =
    let rest = add-only a o ids mid i (rw e only) in
    (
      elim k [
        | inl f ↦
            subst (λ (x : ℕ). Named x i (add_identifiers x o ids mid)) (sym f)
              (new_asset-Named fresh o ids inv mid i u e m s)
        | inr n ↦ old_asset-Named a a o ids inv mid i e n
      ],
      rest,
    )

-- Each identifier that counts as evidence names the asset, and no other.
abbrev pub AllName : ℕ → List Identifier → Inventory → Type 0
AllName a ids inv =
    (i : Identifier) → Memᴰ i ids → counts i ≡ true → Named a i inv × NamesOnly a i inv

pub resolve-AllName :
    (fresh : ℕ) (o : Observation) (ids : List Identifier) (inv inv' : Inventory) (r : Resolution)
    (act : Action)
    → resolve fresh o ids inv ≡ some (r, act, inv')
    → IsUnused fresh inv.identifiers
    → r.conflict ≡ false
    → ((i : Identifier) → Memᴰ i ids → counts i ≡ true → strong_kind i.kind ≡ true)
    → AllName r.asset ids inv'
resolve-AllName fresh o ids inv inv' r act h u c strong_ids i m ci =
    let (mid, er, ei, em) = resolve-parts fresh o ids inv inv' r act h in
    let e : mid.identifiers ≡ inv.identifiers =
      attach-identifiers r.asset o.id o.target o.observed_at r.conflict
        (add_new (decide fresh o ids inv).1 inv) mid em
      ∙ add_new-identifiers (decide fresh o ids inv).1 inv in
    rw ei (
      stored_settles fresh r.asset o ids inv mid i m e u (strong_ids i m ci)
        (agrees_of fresh o ids inv r er i m ci c i m ci))
