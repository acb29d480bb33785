-- ===== src/Assets/Merge/Names.antt =====
-- internal/storage/sqlite/store.go: what the identifiers name after MergeAssets.
use corta_sentry.Prelude.{
  ℕ, ◌≡◌, ◌≢◌, true, ◌&&◌, not, List, [], ◌∷◌, ◌++◌, ◌==◌, arith, elem, Memᴰ, Bool-cases, inl, inr,
  any, ok,
}
use corta_sentry.Assets.Inventory.{
  Kind, Identifier, IdRow, assets_named, find_assets_by_identifier, same_identifier,
}
use corta_sentry.Assets.Resolve.{decide, Observation, strong_kind}
use corta_sentry.Assets.Conflict.{
  Named, HasRow, StrongRows, row_is_strong, named_of_row, decide_conflict,
}
use corta_sentry.Assets.Merge.{Ledger, merge_assets, copy_identifiers}

named-append :
    (b : ℕ) (k : Kind) (v : ℕ) (rows : List IdRow) (r : IdRow)
    → elem ◌==◌ b (assets_named k v rows) ≡ true
    → elem ◌==◌ b (assets_named k v (rows ++ r ∷ [])) ≡ true
unfolding assets_named elem
named-append b k v [] r h = cc
named-append b k v (s ∷ rows) r h = ground (arith, named-append b k v rows r)

has-append :
    (a : ℕ) (i : Identifier) (rows : List IdRow) (r : IdRow)
    → HasRow a i rows
    → HasRow a i (rows ++ r ∷ [])
has-append a i [] r h = cc
has-append a i (s ∷ rows) r h = ground (arith, has-append a i rows r)

has-append_last :
    (a : ℕ) (i : Identifier) (rows : List IdRow) (r : IdRow)
    → same_identifier a i r ≡ true
    → HasRow a i (rows ++ r ∷ [])
has-append_last a i [] r h = ground arith
has-append_last a i (s ∷ rows) r h = ground (arith, has-append_last a i rows r h)

strong-append :
    (a : ℕ) (rows : List IdRow) (r : IdRow)
    → StrongRows a rows
    → row_is_strong a r ≡ true
    → StrongRows a (rows ++ r ∷ [])
strong-append a [] r h k = ground arith
strong-append a (s ∷ rows) r h k = ground (arith, strong-append a rows r)

module _ (source target : ℕ) where
  copy-named :
      (rows out : List IdRow) (b : ℕ) (k : Kind) (v : ℕ)
      → elem ◌==◌ b (assets_named k v out) ≡ true
      → elem ◌==◌ b (assets_named k v (copy_identifiers source target rows out)) ≡ true
  unfolding copy_identifiers
  copy-named [] out b k v h = h
  copy-named (r ∷ rows) out b k v h =
      elim (Bool-cases (r.asset == source && not (any (same_identifier target r.ident) out))) [
        | inl y ↦ rw y (
            copy-named rows (out ++ record r { asset = target } ∷ []) b k v
              (named-append b k v out (record r { asset = target }) h))
        | inr n ↦ rw n (copy-named rows out b k v h)
      ]

  copy-has :
      (rows out : List IdRow) (a : ℕ) (i : Identifier)
      → HasRow a i out
      → HasRow a i (copy_identifiers source target rows out)
  unfolding copy_identifiers
  copy-has [] out a i h = h
  copy-has (r ∷ rows) out a i h =
      elim (Bool-cases (r.asset == source && not (any (same_identifier target r.ident) out))) [
        | inl y ↦ rw y (
            copy-has rows (out ++ record r { asset = target } ∷ []) a i
              (has-append a i out (record r { asset = target }) h))
        | inr n ↦ rw n (copy-has rows out a i h)
      ]

  copied_row :
      (r : IdRow)
      → row_is_strong source r ≡ true
      → (r.asset == source) ≡ true
      → row_is_strong target (record r { asset = target }) ≡ true
  copied_row r h e = ground arith

  copy-StrongRows :
      (rows out : List IdRow)
      → StrongRows source rows
      → StrongRows target out
      → StrongRows target (copy_identifiers source target rows out)
  unfolding copy_identifiers
  copy-StrongRows [] out s h = h
  copy-StrongRows (r ∷ rows) out s h =
      elim (Bool-cases (r.asset == source && not (any (same_identifier target r.ident) out))) [
        | inl y ↦ rw y (
            copy-StrongRows rows (out ++ record r { asset = target } ∷ []) (ground arith) (
              strong-append target out (record r { asset = target }) h
                (copied_row r (ground arith) (ground arith))))
        | inr n ↦ rw n (copy-StrongRows rows out (ground arith) h)
      ]

  same_row :
      (i : Identifier) (r : IdRow) (out : List IdRow)
      → same_identifier source i r ≡ true
      → any (same_identifier target r.ident) out ≡ true
      → HasRow target i out
  same_row i r [] h k = cc
  same_row i r (s ∷ out) h k = ground (arith, same_row i r out h)

  copied-has :
      (i : Identifier) (rows out : List IdRow)
      → HasRow source i rows
      → HasRow target i (copy_identifiers source target rows out)
  unfolding copy_identifiers
  copied-has i [] out h = cc
  copied-has i (r ∷ rows) out h =
      elim (Bool-cases (r.asset == source && not (any (same_identifier target r.ident) out))) [
        | inl y ↦ rw y (elim (Bool-cases (same_identifier source i r)) [
          | inl here ↦
              copy-has rows (out ++ record r { asset = target } ∷ []) target i
                (has-append_last target i out (record r { asset = target }) (ground arith))
          | inr other ↦ copied-has i rows (out ++ record r { asset = target } ∷ []) (ground arith)
        ])
        | inr n ↦ rw n (elim (Bool-cases (same_identifier source i r)) [
          | inl here ↦ copy-has rows out target i (same_row i r out here (ground arith))
          | inr other ↦ copied-has i rows out (ground arith)
        ])
      ]

  merged-identifiers :
      (l l' : Ledger)
      → merge_assets source target l ≡ (ok tt, l')
      → (l'.inventory.identifiers
          ≡ copy_identifiers source target l.inventory.identifiers l.inventory.identifiers)
        × (source ≢ target)
  unfolding merge_assets
  merged-identifiers l l' h = (ground arith, ground arith)

-- After a successful merge of two assets whose rows of strong kinds are marked strong, each later
-- observation with an identifier of a strong kind that the source had is a conflict and creates a
-- new asset.
pub merge_assets_conflicts :
    (source target : ℕ) (l l' : Ledger) (i : Identifier)
    → merge_assets source target l ≡ (ok tt, l')
    → strong_kind i.kind ≡ true
    → HasRow source i l.inventory.identifiers
    → StrongRows source l.inventory.identifiers
    → StrongRows target l.inventory.identifiers
    → (fresh : ℕ) (o : Observation) (ids : List Identifier) → Memᴰ i ids
    → let r = (decide fresh o ids l'.inventory).0 in
      (r.conflict ≡ true) × (r.created ≡ true) × (r.asset ≡ fresh)
unfolding find_assets_by_identifier
merge_assets_conflicts source target l l' i h s has ss st fresh o ids m =
    let rows = l.inventory.identifiers in
    let (e, n) = merged-identifiers source target l l' h in
    let named_source : Named source i l'.inventory = rw e (
      copy-named source target rows rows source i.kind i.value
        (named_of_row source i rows s has ss)) in
    let named_target : Named target i l'.inventory = rw e (
      named_of_row target i (copy_identifiers source target rows rows) s
        (copied-has source target i rows rows has)
        (copy-StrongRows source target rows rows ss st)) in
    decide_conflict fresh o ids l'.inventory i source target m (ground arith) named_source
      named_target n
