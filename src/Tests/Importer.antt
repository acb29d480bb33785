-- ===== src/Tests/Importer.antt =====
-- internal/importer/importer.go: one line of a Zeek log about the loopback address.
use corta_sentry.Prelude.{
  ℕ, ◌≤◌, ◌≡◌, refl, true, false, some, Option, List, [], ◌∷◌, ◌++◌, Text, All, length, list_eq,
  trim_space,
}
use corta_sentry.Records.Observations.{Observation, imported_zeek}
use corta_sentry.Importer.Input.{Library, Sink, string, Fields, zeek}
use corta_sentry.Importer.Jsonl.{sanitize_map, jsonl, jsonl_observation, first_string, source_of}
use corta_sentry.Importer.Sanitized.{IsClean, sanitize_map-IsClean}
use corta_sentry.Importer.Accepted.{jsonl_records, feed, ending, jsonl-ending}
use corta_sentry.Scope.Address.{v6}
use corta_sentry.Auth.Tables.{after_prefix}
use corta_sentry.Tests.Codec.{codec}
use corta_sentry.Tests.Scope.{loopback}
use corta_sentry.Tests.Lab.{tables}

abbrev lib : Library
lib = record {
  net = codec;
  tables = tables;
  nmap_size = λ p h s. 20;
  fields_size = λ f. 20;
  nmap_version = [];
  kind_version = λ k. [];
  import_sensor = [];
  nmap_provenance = [];
  kind_provenance = λ k. [];
}

abbrev cookie_key : Text
cookie_key = b'c' ∷ b'o' ∷ b'o' ∷ b'k' ∷ b'i' ∷ b'e' ∷ []

abbrev ip_key : Text
ip_key = b'i' ∷ b'p' ∷ []

abbrev fields : Fields
fields = (cookie_key, string loopback) ∷ (ip_key, string loopback) ∷ []

sanitize_map-IsClean_example :
    All (IsClean lib) (sanitize_map lib 0 fields) × (length (sanitize_map lib 0 fields) ≤ 200)
sanitize_map-IsClean_example = sanitize_map-IsClean lib fields

abbrev lines : List (ℕ × Option Fields)
lines = (5, some fields) ∷ []

abbrev observation : Observation
observation = jsonl_observation lib 100 zeek imported_zeek 5 (v6 1 0) fields

abbrev append : Sink (List Observation)
append o t = (true, t ++ o ∷ [])

lines_good : jsonl_records lib 100 zeek imported_zeek lines ≡ some (observation ∷ [])
unfolding jsonl_records first_string list_eq after_prefix trim_space
lines_good = refl

fed : feed append (observation ∷ []) [] ≡ some (observation ∷ [])
unfolding feed
fed = refl

zeek_known : source_of zeek ≡ some imported_zeek
unfolding source_of
zeek_known = refl

jsonl-ending_example :
    jsonl lib append false 100 zeek (λ n. true) true 300 lines []
    ≡ (ending true 300, 1, observation ∷ [])
jsonl-ending_example =
    jsonl-ending lib 100 zeek imported_zeek append (λ n. true) true 300 lines (observation ∷ []) []
      (observation ∷ []) (λ n. refl) zeek_known lines_good fed
