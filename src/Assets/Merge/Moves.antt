-- ===== src/Assets/Merge/Moves.antt =====
-- internal/storage/sqlite/store.go: what MergeAssets leaves to the source.
use corta_sentry.Prelude.{
  ℕ, ◌≡◌, ◌≢◌, subst, false, some, List, ◌==◌, arith, if◌then◌else◌, Memᴰ, Bool-cases, inl, inr,
  ◌⊎◌, All, All-of_mem, ok, update_where, delete_where, update_where-mem, delete_where-mem,
}
use corta_sentry.Assets.Inventory.{Asset, merged, LinkRow}
use corta_sentry.Assets.Merge.{Ledger, OwnedRow, merge_assets, move_owned, copy_links}

moved_row :
    (source target : ℕ) (x y : OwnedRow)
    → source ≢ target
    → y ≡ (if x.asset == source then record x { asset = target } else x)
    → y.asset ≢ source
moved_row source target x y n e z = elim (Bool-cases (x.asset == source)) [
  | inl t ↦ absurd (ground arith)
  | inr f ↦ absurd (ground arith)
]

move_owned-mem :
    (source target : ℕ) (rows : List OwnedRow) (y : OwnedRow)
    → source ≢ target
    → Memᴰ y (move_owned source target rows)
    → y.asset ≢ source
unfolding move_owned
move_owned-mem source target rows y n m =
    let (x, k, e) =
      update_where-mem (λ (r : OwnedRow). r.asset == source)
        (λ (r : OwnedRow). record r { asset = target }) rows y m in
    moved_row source target x y n e

merged_row :
    (source target : ℕ) (x y : Asset)
    → y ≡ (if x.id == source then record x { merged_into = some target; status = merged } else x)
    → (y.id ≢ source) ⊎ ((y.merged_into ≡ some target) × (y.status ≡ merged))
merged_row source target x y e = elim (Bool-cases (x.id == source)) [
  | inl t ↦ inr (ground arith, ground arith)
  | inr f ↦ inl (λ i. absurd (ground arith))
]

module _ (source target : ℕ) (l l' : Ledger) (h : merge_assets source target l ≡ (ok tt, l')) where
  merge-parts :
      (source ≢ target)
      × (l'.candidates ≡ move_owned source target l.candidates)
      × (l'.changes ≡ move_owned source target l.changes)
      × (l'.inventory.links
          ≡ delete_where
              (λ (r : LinkRow). r.asset == source)
              (copy_links source target l.inventory.links l.inventory.links))
      × (l'.inventory.assets
          ≡ update_where
              (λ (a : Asset). a.id == source)
              (λ (a : Asset). record a { merged_into = some target; status = merged })
              l.inventory.assets)
  unfolding merge_assets
  merge-parts = (ground arith, ground arith, ground arith, ground arith, ground arith)

  -- After a successful merge no fingerprint candidate, change event or link to an observation
  -- belongs to the source, and every row of the source among the assets is marked as merged into
  -- the target.
  pub merge_assets_moves :
      All (λ y. y.asset ≢ source) l'.candidates
      × All (λ y. y.asset ≢ source) l'.changes
      × All (λ y. (y.asset == source) ≡ false) l'.inventory.links
      × All
          (λ y. (y.id ≢ source) ⊎ ((y.merged_into ≡ some target) × (y.status ≡ merged)))
          l'.inventory.assets
  merge_assets_moves =
      let (n, c, k, ln, a) = merge-parts in
      (
        All-of_mem _ l'.candidates
            (λ y m. move_owned-mem source target l.candidates y n (subst (Memᴰ y) c m)),
        All-of_mem _ l'.changes
            (λ y m. move_owned-mem source target l.changes y n (subst (Memᴰ y) k m)),
        All-of_mem _ l'.inventory.links (λ y m.
            delete_where-mem (λ (r : LinkRow). r.asset == source)
              (copy_links source target l.inventory.links l.inventory.links) y
              (subst (Memᴰ y) ln m)),
        All-of_mem _ l'.inventory.assets (λ y m.
            let (x, w, e) =
              update_where-mem (λ (b : Asset). b.id == source)
                (λ (b : Asset). record b { merged_into = some target; status = merged })
                l.inventory.assets y (subst (Memᴰ y) a m) in
            merged_row source target x y e),
      )
