-- ===== src/Tests/Discovery.antt =====
-- internal/discovery and internal/observation: a scan of the loopback address at two ports, and
-- texts and changes.
use corta_sentry.Prelude.{
  ℕ, ◌+◌, ◌≤◌, ◌≡◌, refl, true, false, List, [], ◌∷◌, ◌++◌, Text, All, Memᴰ, ◌⊎◌, length, some,
  list_eq,
}
use corta_sentry.Scope.Address.{Addr, v6}
use corta_sentry.Jobs.Model.{discovery}
use corta_sentry.Records.Observations.{Observation, tcp_connect}
use corta_sentry.Discovery.Sanitize.{
  Headers, authorization, printable, trim, byte_length, sanitize_headers,
}
use corta_sentry.Discovery.Sanitize.Bounds.{Clean, cleaned, printable_bounds}
use corta_sentry.Discovery.Sanitize.Headers.{IsOpen, open_headers, sanitize_headers-IsOpen}
use corta_sentry.Discovery.Probe.Safety.{Attempts}
use corta_sentry.Discovery.Run.{Scanner, run_with_progress}
use corta_sentry.Discovery.Run.Archive.{Appends, run_with_progress-Appends}
use corta_sentry.Discovery.Result.{no_result}
use corta_sentry.Discovery.Sqlite.{Encoding, Database, sqlite_store, rows, sqlite_store-IsArchive}
use corta_sentry.Discovery.Run.Safety.{IsListed, run_with_progress-IsListed}
use corta_sentry.Discovery.Collect.{no_evidence, open_state}
use corta_sentry.Discovery.Changes.{endpoint_changes, service_event}
use corta_sentry.Discovery.Changes.Endpoint.{Explained, IsNewService, endpoint_changes-Explained}
use corta_sentry.Discovery.Changes.Reported.{endpoint_changes_complete}
use corta_sentry.Service.Handler.{Payload, handle_job}
use corta_sentry.Service.Handler.Aimed.{IsAimed, handle_job-IsAimed}
use corta_sentry.Tests.Scope.{two_targets, two_ports}
use corta_sentry.Tests.Lab.{scanner, findings, calm, unprobed, tables, encoders}

abbrev targets : List Addr
targets = v6 1 0 ∷ []

abbrev ports : List ℕ
ports = 80 ∷ 443 ∷ []

run_with_progress-IsListed_example :
    (new : Attempts) × ((run_with_progress scanner calm targets ports unprobed
        ([], [])).0.probing.dialed
      ≡ new ++ [])
    × All (IsListed scanner targets ports) new
run_with_progress-IsListed_example =
    run_with_progress-IsListed scanner targets ports calm unprobed ([], [])

abbrev payload : Payload
payload = record { targets = two_targets; ports = two_ports }

handle_job-IsAimed_example :
    IsAimed scanner findings calm unprobed
      ([], [])
      (handle_job scanner findings calm discovery (some payload) unprobed ([], []))
handle_job-IsAimed_example =
    handle_job-IsAimed scanner findings calm unprobed ([], []) discovery (some payload)

abbrev agent : Text
agent = b'a' ∷ b'g' ∷ []

abbrev some_headers : Headers
some_headers = (authorization, agent ∷ []) ∷ (agent, agent ∷ []) ∷ []

sanitize_headers-IsOpen_example :
    let r = sanitize_headers tables some_headers 10 4096 in
    All (IsOpen tables 10 4096) r.0
    × (length r.0 ≤ 10)
    × ((r.1 ≡ true) ⊎ (r.0 ≡ open_headers tables 10 4096 some_headers))
sanitize_headers-IsOpen_example = sanitize_headers-IsOpen tables 10 4096 some_headers

printable_bounds_example :
    let r = printable tables agent 1 in
    All (Clean tables) r.0
    × (byte_length r.0 ≤ 1 + 3)
    × ((r.1 ≡ true) ⊎ (r.0 ≡ trim tables (cleaned tables agent)))
printable_bounds_example = printable_bounds tables agent 1

abbrev pub web : Observation
web = record {
  id = 4;
  sensor_id = [];
  job_id = 3;
  asset_id = 0;
  observed_at = 100;
  ingested_at = 100;
  source = tcp_connect;
  target = v6 1 0;
  port = 80;
  transport = [];
  application = [];
  evidence = record no_evidence { state = open_state };
  raw_digest = 0;
  collector_version = [];
  policy_decision_id = 7;
  truncated = false;
  provenance = [];
}

web-IsNewService : IsNewService encoders 1 100 (web ∷ []) [] web
unfolding list_eq
web-IsNewService = record {
  member = Memᴰ.head refl;
  source = refl;
  is_open_now = refl;
  not_before = λ r w. elim w.listed [ ];
}

endpoint_changes_complete_example :
    Memᴰ
      (service_event encoders 1 100 (web ∷ []) [] web)
      (endpoint_changes encoders 1 100 (web ∷ []) [] (web ∷ []))
endpoint_changes_complete_example =
    endpoint_changes_complete encoders 1 100 (web ∷ []) [] web web-IsNewService

endpoint_changes-Explained_example :
    Explained encoders 1 100 (web ∷ []) [] (service_event encoders 1 100 (web ∷ []) [] web)
endpoint_changes-Explained_example =
    endpoint_changes-Explained encoders 1 100 (web ∷ []) []
      (service_event encoders 1 100 (web ∷ []) [] web)
      (endpoint_changes_complete encoders 1 100 (web ∷ []) [] web web-IsNewService)

abbrev code : Encoding
code = record { address = λ a. 1; value = λ t. length t; provenance = λ k. 0 }

abbrev stored_before : Database
stored_before = record {
  observations = web ∷ [];
  candidates = [];
  changes = [];
  inventory = record { assets = []; identifiers = []; addresses = []; links = [] };
  classes = [];
  next_id = 20;
  clock = 300;
}

abbrev real_scanner : Scanner ℕ Database
real_scanner = record {
  codecs = scanner.codecs;
  net = scanner.net;
  engine = scanner.engine;
  wire = scanner.wire;
  peers = scanner.peers;
  budget = scanner.budget;
  job = scanner.job;
  deriver = scanner.deriver;
  store = sqlite_store code;
  strong_id = [];
  max_concurrency = 4;
}

run_with_progress-Appends_example :
    let r = (run_with_progress real_scanner calm targets ports unprobed stored_before).0 in
    Appends rows (no_result, stored_before) (r.result, r.records)
run_with_progress-Appends_example =
    run_with_progress-Appends real_scanner rows (sqlite_store-IsArchive code) calm targets ports
      unprobed stored_before
