-- ===== src/Records/Pages.antt =====
-- internal/storage/sqlite/store.go: what the pages that the reads answer with can hold.
use corta_sentry.Prelude.{
  ℕ, ◌≤◌, ◌<◌, ◌⊎◌, inl, inr, Bool-cases, Option-cases, ◌≡◌, refl, true, Option, none, some, List,
  [], ◌∷◌, arith, length, map, ltb, All, All-mono, All-sort_by, All-take, All-drop,
  select_where-All, select_where, sort_by, take, drop, length-take-le,
}
use corta_sentry.Assets.Inventory.{LinkRow}
use corta_sentry.Records.Observations.{
  Observation, ObservationQuery, Listed, list_observations, is_selected, is_newer, joined,
  with_asset, page_limit, Source, source_eq,
}

length-map : {A B : Type 0} (f : A → B) (xs : List A) → length (map f xs) ≡ length xs
length-map f [] = refl
length-map f (x ∷ xs) = omega (arith, length-map f xs)

All-map :
    {A B : Type 0} (f : A → B) (P : B → Type 0) (xs : List A)
    → All (λ x. P (f x)) xs
    → All P (map f xs)
All-map f P [] h = tt
All-map f P (x ∷ xs) h = (h.0, All-map f P xs h.1)

page_limit_bound :
    (n : ℕ) → (page_limit 500 100 n ≤ 500) × ((n ≡ 0) ⊎ ((500 < n) ⊎ (page_limit 500 100 n ≤ n)))
page_limit_bound n = elim (Bool-cases (ltb n 1)) [
  | inl z ↦ (ground arith, inl (ground arith))
  | inr s ↦ elim (Bool-cases (ltb 500 n)) [
    | inl b ↦ (ground arith, inr (inl (ground arith)))
    | inr m ↦ (ground arith, inr (inr (ground arith)))
  ]
]

-- What a filter of a query asks of a row that is answered.
abbrev pub Asked : {A : Type 0} → Option A → (A → Type 0) → Type 0
Asked none P = Unit
Asked (some a) P = P a

selected_asset :
    (q : ObservationQuery) (r : Listed)
    → is_selected q r ≡ true
    → Asked q.asset (λ (a : ℕ). (with_asset r).asset_id ≡ a)
selected_asset q r h = elim (Option-cases q.asset) [
  | inl n ↦ rw n tt
  | inr (a, e) ↦ rw e (ground arith)
]

selected_source :
    (q : ObservationQuery) (r : Listed)
    → is_selected q r ≡ true
    → Asked q.source (λ (s : Source). source_eq (with_asset r).source s ≡ true)
selected_source q r h = elim (Option-cases q.source) [
  | inl n ↦ rw n tt
  | inr (a, e) ↦ rw e (ground arith)
]

-- A page of observations holds 500 rows at most, and no more than a limit of 1 to 500 asks for.
-- Where an asset or a source is asked for, each row is of that asset or source.
pub list_observations_page :
    (q : ObservationQuery) (links : List LinkRow) (t : List Observation)
    → let page = list_observations q links t in
      (length page ≤ 500)
      × ((q.limit ≡ 0) ⊎ ((500 < q.limit) ⊎ (length page ≤ q.limit)))
      × All (λ (o : Observation). Asked q.asset (λ (a : ℕ). o.asset_id ≡ a)) page
      × All (λ (o : Observation). Asked q.source (λ (s : Source). source_eq o.source s ≡ true)) page
unfolding list_observations
list_observations_page q links t =
    let ls = select_where (is_selected q) (joined links t) in
    let cut = drop q.offset (sort_by is_newer ls) in
    let n = page_limit 500 100 q.limit in
    let b = length-take-le n cut in
    let l = length-map with_asset (take n cut) in
    let all : All (λ (r : Listed). is_selected q r ≡ true) (take n cut) = All-take _ n cut (
      All-drop _ q.offset (sort_by is_newer ls)
        (All-sort_by is_newer _ ls (select_where-All (is_selected q) (joined links t)))) in
    let (x, y) = page_limit_bound q.limit in
    (
      omega (arith, b, l, x),
      elim y [
        | inl z ↦ inl z
        | inr (inl z) ↦ inr (inl z)
        | inr (inr z) ↦ inr (inr (omega (arith, b, l, z)))
      ],
      All-map with_asset _ (take n cut) (All-mono _ _ (selected_asset q) (take n cut) all),
      All-map with_asset _ (take n cut) (All-mono _ _ (selected_source q) (take n cut) all),
    )
