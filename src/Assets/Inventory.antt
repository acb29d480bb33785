-- ===== src/Assets/Inventory.antt =====
-- internal/storage/sqlite/store.go: the tables assets, asset_identifiers, asset_addresses and
-- asset_observations, and the operations of the resolver's Store on them. Identifiers of rows,
-- addresses and values that are only compared are numbers; 0 is the empty text.
use corta_sentry.Prelude.{
  ℕ, ◌+◌, Bool, true, false, ◌&&◌, not, Option, none, some, List, [], ◌∷◌, ◌++◌, any, ◌==◌,
  if◌then◌else◌,
}
use corta_sentry.Jobs.Stamp.{stamp_less}

-- Identifier.Type; `other` is a type that the resolver does not know.
pub data Kind : Type 0 where
  mac ssh_host_key snmp_engine_id agent_enrollment_id serial_number service_set : Kind
  other : ℕ → Kind

unfoldable pub kind_code : Kind → ℕ
kind_code mac = 0
kind_code ssh_host_key = 1
kind_code snmp_engine_id = 2
kind_code agent_enrollment_id = 3
kind_code serial_number = 4
kind_code service_set = 5
kind_code (other n) = 6 + n

abbrev pub kind_eq : Kind → Kind → Bool
kind_eq a b = kind_code a == kind_code b

-- Identifier.Strength; `unset` is the empty text.
pub data Strength : Type 0 where
  strong contextual unset : Strength
  other_strength : ℕ → Strength

abbrev pub is_strong : Strength → Bool
is_strong strong = true
is_strong _ = false

-- domain.Identifier. A zero time is 0.
pub record Identifier : Type 0 where
  pub kind : Kind
  pub value : ℕ
  pub strength : Strength
  pub provenance : ℕ
  pub observation : ℕ
  pub first_seen : ℕ
  pub last_seen : ℕ

-- Asset.Status.
pub data Status : Type 0 where
  active identity_conflict merged : Status

-- The columns of an asset that identity resolution writes.
pub record Asset : Type 0 where
  pub id : ℕ
  pub conflicting_name : Bool
  pub first_seen : ℕ
  pub last_seen : ℕ
  pub status : Status
  pub ambiguous : Bool
  pub merged_into : Option ℕ

pub record IdRow : Type 0 where
  pub asset : ℕ
  pub ident : Identifier

pub record AddressRow : Type 0 where
  pub asset : ℕ
  pub address : ℕ
  pub first_seen : ℕ
  pub last_seen : ℕ
  pub current : Bool

pub record LinkRow : Type 0 where
  pub asset : ℕ
  pub observation : ℕ
  pub conflict : Bool
  pub manual_merge : Bool

pub record Inventory : Type 0 where
  pub assets : List Asset
  pub identifiers : List IdRow
  pub addresses : List AddressRow
  pub links : List LinkRow

abbrev pub is_none : Option ℕ → Bool
is_none none = true
is_none (some _) = false

-- SELECT asset_id FROM asset_identifiers WHERE kind=? AND value=? AND strength='strong'
abbrev pub names : Kind → ℕ → IdRow → Bool
names k v r = kind_eq r.ident.kind k && (r.ident.value == v && is_strong r.ident.strength)

unfoldable pub assets_named : Kind → ℕ → List IdRow → List ℕ
assets_named k v [] = []
assets_named k v (r ∷ rs) =
    let rest = assets_named k v rs in if names k v r then r.asset ∷ rest else rest

-- FindAssetsByIdentifier.
unfoldable pub find_assets_by_identifier : Kind → ℕ → Inventory → List ℕ
find_assets_by_identifier k v inv = assets_named k v inv.identifiers

-- The rows that the joins of FindContinuityAssets keep for an asset.
abbrev pub at_address : ℕ → ℕ → AddressRow → Bool
at_address a address r = r.asset == a && (r.address == address && r.current)

abbrev pub in_service_set : ℕ → ℕ → ℕ → IdRow → Bool
in_service_set a v since r =
    r.asset == a
    && (kind_eq r.ident.kind service_set
        && (r.ident.value == v && not (stamp_less r.ident.last_seen since)))

-- FindContinuityAssets.
unfoldable pub find_continuity : ℕ → ℕ → ℕ → List Asset → Inventory → List ℕ
find_continuity address v since [] inv = []
find_continuity address v since (a ∷ as') inv =
    let rest = find_continuity address v since as' inv in
    if is_none a.merged_into
      && (any (at_address a.id address) inv.addresses
          && any (in_service_set a.id v since) inv.identifiers)
    then a.id ∷ rest
    else rest

-- CreateAsset, with the identifier that `newID` makes.
unfoldable pub create_asset : Asset → Inventory → Inventory
create_asset a inv = record inv { assets = inv.assets ++ a ∷ [] }

abbrev pub linked : ℕ → ℕ → LinkRow → Bool
linked a o r = r.asset == a && r.observation == o

-- INSERT ... ON CONFLICT(asset_id,address) DO UPDATE
unfoldable pub upsert_address : ℕ → ℕ → ℕ → List AddressRow → List AddressRow
upsert_address a address at [] =
    record { asset = a; address = address; first_seen = at; last_seen = at; current = true } ∷ []
upsert_address a address at (r ∷ rs) =
    if r.asset == a && r.address == address
    then record r { last_seen = at; current = true } ∷ rs
    else r ∷ upsert_address a address at rs

-- UPDATE assets SET last_seen=?,status='active' WHERE id=?
unfoldable pub touch_asset : ℕ → ℕ → List Asset → List Asset
touch_asset i at [] = []
touch_asset i at (a ∷ rest) =
    (if a.id == i then record a { last_seen = at; status = active } else a) ∷ touch_asset i at rest

-- AttachObservation: one transaction, refused if the observation is attached to the asset already.
unfoldable pub attach_observation : ℕ → ℕ → ℕ → ℕ → Bool → Inventory → Option Inventory
unfolding upsert_address touch_asset
attach_observation a o address at conflict inv =
    if any (linked a o) inv.links
    then none
    else some (record inv {
      links =
          inv.links
          ++ record { asset = a; observation = o; conflict = conflict; manual_merge = false } ∷ [];
      addresses = upsert_address a address at inv.addresses;
      assets = touch_asset a at inv.assets;
    })

abbrev pub same_identifier : ℕ → Identifier → IdRow → Bool
same_identifier a i r = r.asset == a && (kind_eq r.ident.kind i.kind && r.ident.value == i.value)

-- AddIdentifier: on a row that is there, only its last sighting and observation change.
unfoldable pub upsert_identifier : ℕ → Identifier → List IdRow → List IdRow
upsert_identifier a i [] = record { asset = a; ident = i } ∷ []
upsert_identifier a i (r ∷ rs) =
    if same_identifier a i r
    then record r {
      ident = record r.ident { last_seen = i.last_seen; observation = i.observation };
    }
      ∷ rs
    else r ∷ upsert_identifier a i rs

unfoldable pub add_identifier : ℕ → Identifier → Inventory → Inventory
unfolding upsert_identifier
add_identifier a i inv = record inv { identifiers = upsert_identifier a i inv.identifiers }
