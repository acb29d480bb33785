-- ===== src/Assets/Resolve.antt =====
-- internal/assets/resolver.go: which asset an observation belongs to.
use corta_sentry.Prelude.{
  ℕ, ◌-◌, Bool, true, false, ◌&&◌, ◌||◌, not, Option, none, some, List, [], ◌∷◌, ◌++◌, ◌==◌,
  if◌then◌else◌, elem,
}
use corta_sentry.Assets.Inventory.{
  Kind, service_set, other, Strength, strong, contextual, unset, is_strong, Identifier, Asset,
  active, identity_conflict, Inventory, find_assets_by_identifier, find_continuity, create_asset,
  attach_observation, add_identifier,
}

-- The table `strong`.
unfoldable pub strong_kind : Kind → Bool
strong_kind service_set = false
strong_kind (other n) = false
strong_kind _ = true

abbrev pub is_service_set : Kind → Bool
is_service_set service_set = true
is_service_set _ = false

-- What the first loop of Resolve collects. The evidence lists are identifiers.
pub record Gathered : Type 0 where
  pub matches : List ℕ
  pub service_set_value : ℕ
  pub supplied : Bool
  pub unmatched : Bool
  pub matched_evidence : List Identifier
  pub unmatched_evidence : List Identifier

abbrev pub nothing_gathered : Gathered
nothing_gathered = record {
  matches = [];
  service_set_value = 0;
  supplied = false;
  unmatched = false;
  matched_evidence = [];
  unmatched_evidence = [];
}

-- `for _, a := range found { matches[a] = true }`
unfoldable pub add_matches : List ℕ → List ℕ → List ℕ
add_matches ms [] = ms
add_matches ms (a ∷ found) = add_matches (if elem ◌==◌ a ms then ms else ms ++ a ∷ []) found

abbrev pub is_empty : List ℕ → Bool
is_empty [] = true
is_empty (x ∷ xs) = false

-- The loop skips an identifier that is neither of a strong kind nor marked strong.
abbrev pub counts : Identifier → Bool
counts i = strong_kind i.kind || is_strong i.strength

abbrev pub note_service_set : Identifier → Gathered → Gathered
note_service_set i g = if is_service_set i.kind then record g { service_set_value = i.value } else g

unfoldable pub gather_found : Identifier → List ℕ → Gathered → Gathered
unfolding add_matches
gather_found i found g =
    if is_empty found
    then record g {
      supplied = true;
      unmatched = true;
      unmatched_evidence = g.unmatched_evidence ++ i ∷ [];
    }
    else record g {
      supplied = true;
      matches = add_matches g.matches found;
      matched_evidence = g.matched_evidence ++ i ∷ [];
    }

unfoldable pub gather_one : Inventory → Gathered → Identifier → Gathered
gather_one inv g i =
    let g' = note_service_set i g in
    if counts i then gather_found i (find_assets_by_identifier i.kind i.value inv) g' else g'

unfoldable pub gather : Inventory → Gathered → List Identifier → Gathered
gather inv g [] = g
gather inv g (i ∷ ids) = gather inv (gather_one inv g i) ids

-- The observation, as far as Resolve reads it. Times are in nanoseconds.
pub record Observation : Type 0 where
  pub id : ℕ
  pub target : ℕ
  pub observed_at : ℕ

abbrev pub half_hour : ℕ
half_hour = 1800000000000

-- The matches, and whether continuity gave them.
unfoldable pub with_continuity : Inventory → Observation → Gathered → List ℕ × Bool
with_continuity inv o g =
    if not g.supplied && (is_empty g.matches && not (g.service_set_value == 0))
    then (let found =
          find_continuity o.target g.service_set_value (o.observed_at - half_hour) inv.assets inv in
        (add_matches g.matches found, not (is_empty found)))
    else (g.matches, false)

pub data Reason : Type 0 where
  strong_identifier_conflict : List Identifier → List Identifier → Reason
  insufficient_identity_evidence : Reason
  no_strong_identifier_match : List Identifier → Reason
  strong_identifier_match : List Identifier → Reason
  continuity_match : ℕ → ℕ → Reason
  multiple_assets_matched : Reason

-- Result.
pub record Resolution : Type 0 where
  pub asset : ℕ
  pub reason : Reason
  pub created : Bool
  pub conflict : Bool

abbrev pub new_asset : ℕ → Observation → Bool → Asset
new_asset fresh o conflict = record {
  id = fresh;
  conflicting_name = conflict;
  first_seen = o.observed_at;
  last_seen = o.observed_at;
  status = if conflict then identity_conflict else active;
  ambiguous = conflict;
  merged_into = none;
}

-- The switch of Resolve: the result, and the asset to create if there is one.
unfoldable pub choose : ℕ → Observation → Gathered → List ℕ → Bool → Resolution × Option Asset
choose fresh o g [] continued = (
  record {
    asset = fresh;
    reason =
        if g.supplied
        then no_strong_identifier_match g.unmatched_evidence
        else insufficient_identity_evidence;
    created = true;
    conflict = false;
  },
  some (new_asset fresh o false),
)
choose fresh o g (a ∷ ms) continued =
    if g.unmatched
    then (
      record {
        asset = fresh;
        reason = strong_identifier_conflict g.matched_evidence g.unmatched_evidence;
        created = true;
        conflict = true;
      },
      some (new_asset fresh o true),
    )
    else if is_empty ms
    then (
      record {
        asset = a;
        reason =
            if continued
            then continuity_match o.target g.service_set_value
            else strong_identifier_match g.matched_evidence;
        created = false;
        conflict = false;
      },
      none,
    )
    else (
      record { asset = fresh; reason = multiple_assets_matched; created = true; conflict = true },
      some (new_asset fresh o true),
    )

-- The identifier as the last loop of Resolve stores it.
abbrev pub stored_strength : Identifier → Strength
stored_strength i =
    if strong_kind i.kind then strong else elim i.strength [ unset ↦ contextual | s ↦ s ]

abbrev pub stored : Observation → Identifier → Identifier
stored o i = record i {
  observation = o.id;
  first_seen = if i.first_seen == 0 then o.observed_at else i.first_seen;
  last_seen = o.observed_at;
  strength = stored_strength i;
}

unfoldable pub add_identifiers : ℕ → Observation → List Identifier → Inventory → Inventory
add_identifiers a o [] inv = inv
add_identifiers a o (i ∷ ids) inv = add_identifiers a o ids (add_identifier a (stored o i) inv)

unfoldable pub add_new : Option Asset → Inventory → Inventory
add_new none inv = inv
add_new (some a) inv = create_asset a inv

-- The audit event of a resolution.
pub data Action : Type 0 where
  asset_updated asset_created asset_identity_conflict : Action

abbrev pub action : Resolution → Action
action r =
    if r.conflict
    then asset_identity_conflict
    else if r.created
    then asset_created
    else asset_updated

-- The decision of Resolve, before it writes anything.
unfoldable pub decide : ℕ → Observation → List Identifier → Inventory → Resolution × Option Asset
decide fresh o ids inv =
    let g = gather inv nothing_gathered ids in
    let m = with_continuity inv o g in choose fresh o g m.0 m.1

-- Resolve. Nothing is answered if the observation is attached to the asset already.
unfoldable pub resolve :
    ℕ → Observation → List Identifier → Inventory → Option (Resolution × Action × Inventory)
unfolding add_new
resolve fresh o ids inv =
    let d = decide fresh o ids inv in
    elim (attach_observation d.0.asset o.id o.target o.observed_at d.0.conflict (add_new d.1 inv)) [
      | none ↦ none
      | some inv' ↦ some (d.0, action d.0, add_identifiers d.0.asset o ids inv')
    ]
