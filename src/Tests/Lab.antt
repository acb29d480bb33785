-- ===== src/Tests/Lab.antt =====
-- The parts of a scanner that lie outside the code, made concrete: a network on which every
-- connection succeeds, peers that answer alike, and a store of two lists.
use corta_sentry.Prelude.{ℕ, ◌+◌, true, false, none, some, List, [], ◌∷◌, ◌++◌, Text, length}
use corta_sentry.Records.Observations.{Observation}
use corta_sentry.Records.Changes.{ChangeEvent}
use corta_sentry.Discovery.Sanitize.{Tables}
use corta_sentry.Discovery.Dialer.{Network, Probing}
use corta_sentry.Discovery.Collect.{Peers, Codecs}
use corta_sentry.Discovery.Store.{ScanStore, Classification}
use corta_sentry.Discovery.Changes.{Encoders}
use corta_sentry.Discovery.Result.{Deriver}
use corta_sentry.Discovery.Run.{Scanner, Surroundings}
use corta_sentry.Importer.Pipeline.{FindingStore}
use corta_sentry.Tests.Codec.{codec}
use corta_sentry.Tests.Scope.{engine, world}

abbrev pub tables : Tables
tables = record { is_print = λ c. true; is_blank = λ c. false }

abbrev wire : Network
wire = record { granted = λ n. true; connects = λ n a p. true }

abbrev pub certificate : Text
certificate = b'f' ∷ []

abbrev peers : Peers
peers = record {
  certificates = λ n. some (certificate ∷ []);
  response = λ n secure. none;
  greeting = λ n. b'h' ∷ b'i' ∷ [];
}

abbrev pub codecs : Codecs
codecs = record {
  tables = tables;
  sha256_hex = λ t. t;
  digest = λ t. length t;
  find_title = λ t. none;
  json_size = λ v. 20;
  version_of = λ s. [];
  application_of = λ s. [];
}

abbrev pub encoders : Encoders
encoders = record {
  null_json = b'n' ∷ [];
  address_json = λ a. [];
  service_json = λ p t. p ∷ [];
  string_json = λ t. t;
  title_json = λ t. [];
  class_json = λ c. [];
}

abbrev unclassified : Classification
unclassified = record {
  device_class = [];
  vendor = [];
  product_family = [];
  model = [];
  ambiguous = false;
}

abbrev deriver : Deriver
deriver = record {
  encoders = encoders;
  part_text = λ s t p. p ∷ [];
  sha256_hex = λ t. t;
  port_text = λ p. p ∷ [];
  evaluate = λ now ev. [];
  ambiguity_delta = 0;
  columns_of = λ n. unclassified;
}

abbrev pub Kept : Type 0
Kept = List Observation × List ChangeEvent

abbrev keep : ScanStore Kept
keep = record {
  add_observation = λ o t. some (record o { id = length t.0 + 1 }, (t.0 ++ o ∷ [], t.1));
  add_candidate = λ n c t. some t;
  add_change = λ c t. some (t.0, t.1 ++ c ∷ []);
  list_observations = λ q t. some [];
  update_classification = λ n c now t. some t;
  attach_observation = λ n o created t. some t;
  get_classification = λ n t. some unclassified;
  resolve = λ o ids t. (some (record { asset_id = 1; created = true }), t);
}

abbrev pub findings : FindingStore Kept
findings = record {
  evaluate = λ n t. some [];
  upsert_finding = λ f t. some (true, t);
  finding_json = λ f. [];
}

abbrev pub scanner : Scanner ℕ Kept
scanner = record {
  codecs = codecs;
  net = codec;
  engine = engine;
  wire = wire;
  peers = peers;
  budget = record { max_body = 100; max_headers = 10 };
  job = 3;
  deriver = deriver;
  store = keep;
  strong_id = [];
  max_concurrency = 4;
}

abbrev pub calm : Surroundings
calm = record { ends_at_select = λ n. false; alive = λ n. true; progress = λ n m. true }

abbrev pub unprobed : Probing ℕ
unprobed = record { world = world; limiters = []; waits = 0; dialed = [] }
