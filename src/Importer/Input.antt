-- ===== src/Importer/Input.antt =====
-- internal/importer/importer.go: the input, the sink and what the importers share.
use corta_sentry.Prelude.{ℕ, ◌+◌, ◌*◌, Bool, false, List, Result, ok, err, Text, if◌then◌else◌}
use corta_sentry.Scope.Address.{Addr, NetText}
use corta_sentry.Records.Observations.{Observation, Evidence, Source, mebibyte}
use corta_sentry.Discovery.Sanitize.{Tables, printable}

abbrev pub max_import_bytes : ℕ
max_import_bytes = 64 * mebibyte

-- Sink: whether the observation was taken, and the state after it.
abbrev pub Sink : Type 0 → Type 0
Sink S = Observation → S → Bool × S

pub record NmapPort : Type 0 where
  pub protocol : Text
  pub port : ℕ
  pub state : Text
  pub service : Text
  pub product : Text
  pub version : Text

-- An address with whether its type is "ipv4" or "ipv6".
pub record NmapAddress : Type 0 where
  pub addr : Text
  pub is_ip : Bool

pub record NmapHost : Type 0 where
  pub addresses : List NmapAddress
  pub ports : List NmapPort

pub record NmapRun : Type 0 where
  pub scanner : Text
  pub hosts : List NmapHost

-- A JSON value of a record: an array or an object has the length of its JSON and its text.
pub data Json : Type 0 where
  string : Text → Json
  number : ℕ → Json
  boolean : Bool → Json
  null : Json
  compound : ℕ → Text → Json

abbrev pub Fields : Type 0
Fields = List (Text × Json)

pub data ImportError : Type 0 where
  too_large not_xml not_nmap unsupported_type cancelled unreadable sink_failed : ImportError
  bad_record bad_target : ℕ → ImportError

pub data Kind : Type 0 where
  zeek suricata nuclei other_kind : Kind

-- What the importer takes from other packages.
pub record Library : Type 0 where
  pub net : NetText
  pub tables : Tables
  pub nmap_size : NmapPort → Text → Text → ℕ
  pub fields_size : Fields → ℕ
  pub nmap_version : Text
  pub kind_version : Kind → Text
  pub import_sensor : Text
  pub nmap_provenance : Text
  pub kind_provenance : Kind → Text

abbrev pub Import : Type 0 → Type 0
Import S = Result ImportError (Unit {0}) × ℕ × S

module _ {S : Type 0} (sink : Sink S) (dry : Bool) where
  -- `count++; if !dry && sink != nil { sink.AddObservation(...) }`
  unfoldable pub give : Observation → ℕ → S → Import S
  give o count st =
      if dry
      then (ok tt, count + 1, st)
      else ((if (sink o st).0 then ok tt else err sink_failed), count + 1, (sink o st).1)

module _ (lib : Library) where
  abbrev pub bounded : Text → ℕ → Text
  bounded s n = (printable lib.tables s n).0

  abbrev pub imported :
      ℕ → Source → Addr → ℕ → Text → Text → Evidence → ℕ → Text → Text → Observation
  imported now source a port transport application v digest version provenance = record {
    id = 0;
    sensor_id = lib.import_sensor;
    job_id = 0;
    asset_id = 0;
    observed_at = now;
    ingested_at = 0;
    source = source;
    target = a;
    port = port;
    transport = transport;
    application = application;
    evidence = v;
    raw_digest = digest;
    collector_version = version;
    policy_decision_id = 0;
    truncated = false;
    provenance = provenance;
  }
