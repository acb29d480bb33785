-- ===== src/Tests/Service.antt =====
-- internal/application/service.go: a scan of the loopback address, submitted and previewed.
use corta_sentry.Prelude.{
  ℕ, ◌≡◌, refl, true, none, some, List, [], ◌∷◌, ◌++◌, Text, ◌⊎◌, ok, err, trim_space, elem,
}
use corta_sentry.Scope.Address.{Addr, parse_prefix, mask, unmap}
use corta_sentry.Scope.Engine.{new, load_prefixes, load_ports, set_insert, JobError}
use corta_sentry.Scope.Job.{validate_job}
use corta_sentry.Scope.Validate.{IsValidJob}
use corta_sentry.Service.{
  Principal, AuditEvent, Log, ServiceState, ScanRequest, scan_denied, scan_job, submit_scan, event,
  scan_create, denied,
}
use corta_sentry.Service.Scans.{submit_scan_lem, IsSubmitted, IsAttempted}
use corta_sentry.Tests.Codec.{codec}
use corta_sentry.Tests.Scope.{config, count_decision, engine, world, two_targets, two_ports}

abbrev pub operator : Principal
operator = record { kind = b'u' ∷ []; id = []; request_id = [] }

abbrev pub keep_events : Log (List AuditEvent)
keep_events e l = some (l ++ e ∷ [])

abbrev scan_request : ScanRequest
scan_request = record { targets = two_targets; ports = two_ports; idempotency_key = 5 }

abbrev no_payload : List Text → List ℕ → ℕ → Text
no_payload targets ports key = []

abbrev pub idle : ServiceState ℕ (List AuditEvent)
idle = record {
  world = world;
  queue = record { table = []; depth_up = 0; depth_down = 0 };
  log = [];
}

submit_scan_lem_example :
    let r =
      submit_scan keep_events codec engine no_payload true 1 100 4 operator scan_request idle in
    ((aa : List Addr) × (pp : List ℕ) × ((validate_job codec engine world two_targets two_ports).0
        ≡ ok (aa, pp))
      × IsValidJob codec engine aa pp
      × IsSubmitted keep_events codec engine no_payload 1 100 4 operator
          (scan_job keep_events codec engine no_payload scan_request aa pp)
          idle
          r)
    ⊎ ((x : JobError) × ((validate_job codec engine world two_targets two_ports).0 ≡ err x)
        × (r.0 ≡ err (scan_denied x))
        × (r.1.queue ≡ idle.queue)
        × IsAttempted keep_events codec engine no_payload 1 100 4 operator
            (event operator scan_create 0 denied)
            []
            r.1.log)
submit_scan_lem_example =
    submit_scan_lem keep_events codec engine no_payload 1 100 4 operator scan_request idle

engine_made : new codec config (some count_decision) ≡ ok engine
unfolding new load_prefixes load_ports set_insert parse_prefix mask unmap trim_space elem
engine_made = refl

preview_engine_made : new codec config none ≡ ok (record engine { audit = none })
unfolding new load_prefixes load_ports set_insert parse_prefix mask unmap trim_space elem
preview_engine_made = refl
