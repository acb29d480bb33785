-- ===== src/Discovery/Sqlite.antt =====
-- internal/storage/sqlite/store.go, with the resolver of internal/assets, as the store of a scanner:
-- the operations of Records and Assets on one state. Addresses and values of identifiers are
-- numbers there, by an encoding that is a parameter.
use corta_sentry.Prelude.{
  ℕ, ◌+◌, ◌≡◌, ◌∙◌, Bool, false, Option, none, some, List, [], ◌∷◌, ◌++◌, Text, ok, err, any, ◌==◌,
  if◌then◌else◌, arith, Result-cases, Option-cases, inl, inr,
}
use corta_sentry.Scope.Address.{Addr}
use corta_sentry.Fingerprint.Model.{Candidate}
use corta_sentry.Records.Observations.{Observation, add_observation, list_observations}
use corta_sentry.Records.Changes.{ChangeEvent, ChangeRow, add_change}
use corta_sentry.Assets.Inventory.{Kind, Identifier, Asset, Inventory, attach_observation}
use corta_sentry.Assets.Resolve.{resolve}
use corta_sentry.Discovery.Store.{Classification, Supplied, Resolved, ScanStore}
use corta_sentry.Discovery.Ingest.Archive.{IsArchive}

-- The numbers that stand for addresses, values of identifiers and provenances.
pub record Encoding : Type 0 where
  pub address : Addr → ℕ
  pub value : Text → ℕ
  pub provenance : Kind → ℕ

-- The tables, with the identifier that newID makes next and the clock. `classes` holds the columns
-- of assets that a classification writes, where one has been written.
pub record Database : Type 0 where
  pub observations : List Observation
  pub candidates : List (ℕ × Candidate)
  pub changes : List ChangeRow
  pub inventory : Inventory
  pub classes : List (ℕ × Classification)
  pub next_id : ℕ
  pub clock : ℕ

abbrev pub asset_id : ℕ → Asset → Bool
asset_id i a = a.id == i

abbrev pub no_columns : Classification
no_columns = record {
  device_class = [];
  vendor = [];
  product_family = [];
  model = [];
  ambiguous = false;
}

-- UPDATE assets SET ... WHERE id=?
unfoldable pub set_columns :
    ℕ → Classification → List (ℕ × Classification) → List (ℕ × Classification)
set_columns i c [] = (i, c) ∷ []
set_columns i c ((k, old) ∷ cs) = if k == i then (i, c) ∷ cs else (k, old) ∷ set_columns i c cs

unfoldable pub set_ambiguous : ℕ → Bool → List Asset → List Asset
set_ambiguous i b [] = []
set_ambiguous i b (a ∷ rest) =
    (if a.id == i then record a { ambiguous = b } else a) ∷ set_ambiguous i b rest

-- UpdateClassification, which is no error for an asset that is not there.
unfoldable pub update_classification : ℕ → Classification → Database → Database
unfolding set_columns set_ambiguous
update_classification i c t =
    if any (asset_id i) t.inventory.assets
    then record t {
      classes = set_columns i c t.classes;
      inventory = record t.inventory { assets = set_ambiguous i c.ambiguous t.inventory.assets };
    }
    else t

unfoldable pub columns_at : ℕ → Bool → List (ℕ × Classification) → Classification
columns_at i b [] = record no_columns { ambiguous = b }
columns_at i b ((k, c) ∷ cs) = if k == i then record c { ambiguous = b } else columns_at i b cs

-- The columns of a classification that GetAsset reads.
unfoldable pub classification_of :
    ℕ → List (ℕ × Classification) → List Asset → Option Classification
unfolding columns_at
classification_of i cs [] = none
classification_of i cs (a ∷ rest) =
    let more = classification_of i cs rest in
    if a.id == i then some (columns_at i a.ambiguous cs) else more

abbrev pub rows : Database → List Observation
rows t = t.observations

row_appended :
    (fresh now : ℕ) (o row : Observation) (t u : List Observation)
    → add_observation fresh now o t ≡ ok (row, u)
    → u ≡ t ++ row ∷ []
unfolding add_observation
row_appended fresh now o row t u h = ground arith

module _ (code : Encoding) where
  abbrev identifier : Supplied → Identifier
  identifier s = record {
    kind = s.kind;
    value = code.value s.value;
    strength = s.strength;
    provenance = code.provenance s.kind;
    observation = 0;
    first_seen = 0;
    last_seen = 0;
  }

  unfoldable pub identifiers : List Supplied → List Identifier
  identifiers [] = []
  identifiers (s ∷ ss) = identifier s ∷ identifiers ss

  -- Resolve, on the tables; the identifier of a new asset is the next one.
  unfoldable pub resolve_stored :
      Observation → List Supplied → Database → Option Resolved × Database
  unfolding identifiers
  resolve_stored o ids t =
      elim (resolve t.next_id
        (record { id = o.id; target = code.address o.target; observed_at = o.observed_at })
        (identifiers ids) t.inventory) [
          | none ↦ (none, t)
          | some (r, act, inv) ↦ (
            some (record { asset_id = r.asset; created = r.created }),
            record t { inventory = inv; next_id = t.next_id + 1 },
          )
        ]

  abbrev add_stored : Observation → Database → Option (Observation × Database)
  add_stored o t = elim (add_observation t.next_id t.clock o t.observations) [
    | err x ↦ none
    | ok (row, rows) ↦ some (row, record t { observations = rows; next_id = t.next_id + 1 })
  ]

  abbrev attach_stored : ℕ → Observation → Bool → Database → Option Database
  attach_stored asset o conflict t =
      elim (attach_observation asset o.id (code.address o.target) o.observed_at conflict
        t.inventory) [ none ↦ none | some inv ↦ some (record t { inventory = inv }) ]

  abbrev change_stored : ChangeEvent → Database → Option Database
  change_stored c t =
      elim (add_change (λ a. any (asset_id a) t.inventory.assets) t.next_id c t.changes) [
        | none ↦ none
        | some rows ↦ some (record t { changes = rows; next_id = t.next_id + 1 })
      ]

  abbrev pub sqlite_store : ScanStore Database
  sqlite_store = record {
    add_observation = add_stored;
    add_candidate = λ asset c t. some (record t { candidates = t.candidates ++ (asset, c) ∷ [] });
    add_change = change_stored;
    list_observations = λ q t. some (list_observations q t.inventory.links t.observations);
    update_classification = λ asset c score t. some (update_classification asset c t);
    attach_observation = attach_stored;
    get_classification = λ asset t. classification_of asset t.classes t.inventory.assets;
    resolve = resolve_stored;
  }

  pub sqlite_store-IsArchive : IsArchive sqlite_store rows
  unfolding update_classification resolve_stored
  sqlite_store-IsArchive = record {
    adds = λ o row t u h. elim (Result-cases (add_observation t.next_id t.clock o t.observations)) [
      | inr (x, e) ↦ absurd (ground arith)
      | inl ((r, rs), e) ↦
          let k = row_appended t.next_id t.clock o r t.observations rs e in
          let a : row ≡ r = ground arith in let b : rows u ≡ rs = ground arith in rw a (b ∙ k)
    ];
    keeps_candidate = λ asset c t u h. ground arith;
    keeps_change = λ c t u h. elim (Option-cases (change_stored c t)) [
      | inl n ↦ absurd (ground arith)
      | inr (v, e) ↦ ground arith
    ];
    keeps_class = λ asset c score t u h. ground arith;
    keeps_link = λ asset o conflict t u h. ground arith;
    keeps_resolve = λ o ids t. ground arith;
  }
