-- ===== src/Importer/Jsonl.antt =====
-- internal/importer/importer.go: JSONL and sanitizeMap.
use corta_sentry.Prelude.{
  ℕ, ◌+◌, Bool, true, false, ◌||◌, not, Option, none, some, List, [], ◌∷◌, map, ok, err, Text, ltb,
  leb, list_eq, to_lower, if◌then◌else◌, trim_space,
}
use corta_sentry.Scope.Address.{Addr, unmap}
use corta_sentry.Fingerprint.Match.{contains}
use corta_sentry.Auth.Tables.{after_prefix}
use corta_sentry.Records.Observations.{
  Observation, Source, imported_zeek, imported_suricata, imported_nuclei,
}
use corta_sentry.Discovery.Sanitize.{authorization, cookie}
use corta_sentry.Discovery.Collect.{no_evidence}
use corta_sentry.Importer.Input.{
  max_import_bytes, Sink, Json, string, number, boolean, null, compound, Fields, too_large,
  unsupported_type, cancelled, unreadable, bad_record, bad_target, Kind, zeek, suricata, nuclei,
  other_kind, Library, bounded, imported, Import, give,
}

-- Whether a key of a record is dropped.
abbrev pub is_secret_key : Text → Bool
is_secret_key k = contains (map to_lower k) authorization || contains (map to_lower k) cookie

abbrev pub field_of : Text → Fields → Option Json
field_of k [] = none
field_of k ((j, v) ∷ m) = if list_eq j k then some v else field_of k m

abbrev http_prefix : Text
http_prefix = b'h' ∷ b't' ∷ b't' ∷ b'p' ∷ b':' ∷ b'/' ∷ b'/' ∷ []

abbrev without_prefix : Text → Text
without_prefix s = elim (after_prefix http_prefix s) [ none ↦ s | some r ↦ r ]

-- The value of a key if it is a text, and if it is a number.
abbrev text_of : Option Json → Option Text
text_of (some (string s)) = some s
text_of _ = none

abbrev number_of : Option Json → Option ℕ
number_of (some (number n)) = some n
number_of _ = none

-- firstString.
unfoldable pub first_string : Fields → List Text → Text
first_string m [] = []
first_string m (k ∷ ks) =
    let rest = first_string m ks in
    elim (text_of (field_of k m)) [ none ↦ rest | some s ↦ trim_space (without_prefix s) ]

-- firstInt.
unfoldable pub first_int : Fields → List Text → ℕ
first_int m [] = 0
first_int m (k ∷ ks) =
    let rest = first_int m ks in elim (number_of (field_of k m)) [ none ↦ rest | some n ↦ n ]

-- "id.resp_h", "dest_ip", "host", "ip"; and "id.resp_p", "dest_port", "port".
abbrev pub target_keys : List Text
target_keys =
    (b'i' ∷ b'd' ∷ b'.' ∷ b'r' ∷ b'e' ∷ b's' ∷ b'p' ∷ b'_' ∷ b'h' ∷ [])
    ∷ (b'd' ∷ b'e' ∷ b's' ∷ b't' ∷ b'_' ∷ b'i' ∷ b'p' ∷ [])
    ∷ (b'h' ∷ b'o' ∷ b's' ∷ b't' ∷ [])
    ∷ (b'i' ∷ b'p' ∷ [])
    ∷ []

abbrev pub port_keys : List Text
port_keys =
    (b'i' ∷ b'd' ∷ b'.' ∷ b'r' ∷ b'e' ∷ b's' ∷ b'p' ∷ b'_' ∷ b'p' ∷ [])
    ∷ (b'd' ∷ b'e' ∷ b's' ∷ b't' ∷ b'_' ∷ b'p' ∷ b'o' ∷ b'r' ∷ b't' ∷ [])
    ∷ (b'p' ∷ b'o' ∷ b'r' ∷ b't' ∷ [])
    ∷ []

-- The table of sources.
abbrev pub source_of : Kind → Option Source
source_of zeek = some imported_zeek
source_of suricata = some imported_suricata
source_of nuclei = some imported_nuclei
source_of other_kind = none

abbrev pub is_nuclei : Kind → Bool
is_nuclei nuclei = true
is_nuclei zeek = false
is_nuclei suricata = false
is_nuclei other_kind = false

module _ (lib : Library) where
  -- What is kept of a value, if anything is.
  abbrev pub kept_value : Json → Option Json
  kept_value (string s) = some (string (bounded lib s 4096))
  kept_value (number n) = some (number n)
  kept_value (boolean b) = some (boolean b)
  kept_value null = some null
  kept_value (compound size v) = if leb size 16384 then some (compound size v) else none

  -- sanitizeMap, on the map in the order in which it is walked.
  unfoldable pub sanitize_map : ℕ → Fields → Fields
  sanitize_map n [] = []
  sanitize_map n ((k, v) ∷ m) =
      let skip = sanitize_map n m in
      let rest = sanitize_map (n + 1) m in
      if leb 200 n
      then []
      else if is_secret_key k
      then skip
      else elim (kept_value v) [ none ↦ rest | some w ↦ (k, w) ∷ rest ]

  -- The observation of a line.
  unfoldable pub jsonl_observation : ℕ → Kind → Source → ℕ → Addr → Fields → Observation
  unfolding sanitize_map first_int
  jsonl_observation now kind source digest a raw =
      imported lib now source (unmap a) (first_int raw port_keys) [] []
        (record no_evidence { size = lib.fields_size (sanitize_map 0 raw) }) digest
        (lib.kind_version kind) (lib.kind_provenance kind)

  module _ {S : Type 0} (sink : Sink S) (dry : Bool) where
    -- The loop over the lines; `none` is a line that is no JSON object. `alive` is the context, and
    -- `readable` whether the scanner came to the end of the input.
    unfoldable pub jsonl_lines :
        ℕ → Kind → Source → (ℕ → Bool) → Bool → ℕ → List (ℕ × Option Fields) → ℕ → S → Import S
    unfolding jsonl_observation give
    jsonl_lines now kind source alive readable bytes [] count st =
        if not readable
        then (err unreadable, count, st)
        else if ltb max_import_bytes bytes
        then (err too_large, count, st)
        else (ok tt, count, st)
    jsonl_lines now kind source alive readable bytes ((digest, line) ∷ ls) count st =
        let skip = jsonl_lines now kind source alive readable bytes ls count st in
        if not (alive count) then (err cancelled, count, st) else elim line [
          | none ↦ (err (bad_record (count + 1)), count, st)
          | some raw ↦ elim (lib.net.parse_addr (first_string raw target_keys)) [
            | none ↦ if is_nuclei kind then skip else (err (bad_target (count + 1)), count, st)
            | some a ↦
                (let r = give sink dry (jsonl_observation now kind source digest a raw) count st in
                  elim r.0 [
                    | err x ↦ r
                    | ok _ ↦ jsonl_lines now kind source alive readable bytes ls r.1 r.2
                  ])
          ]
        ]

    -- JSONL.
    unfoldable pub jsonl :
        ℕ → Kind → (ℕ → Bool) → Bool → ℕ → List (ℕ × Option Fields) → S → Import S
    unfolding jsonl_lines
    jsonl now kind alive readable bytes lines st = elim (source_of kind) [
      | none ↦ (err unsupported_type, 0, st)
      | some source ↦ jsonl_lines now kind source alive readable bytes lines 0 st
    ]
