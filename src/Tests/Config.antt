-- ===== src/Tests/Config.antt =====
-- internal/config/config.go on the default limits and a server on the loopback interface.
use corta_sentry.Prelude.{◌≡◌, refl, true, false, none, some, [], ◌∷◌, elem}
use corta_sentry.Scope.Address.{unmap, is_loopback}
use corta_sentry.Scope.Engine.{ScopeConfig}
use corta_sentry.Config.{
  pos, Limits, Config, BindText, validate, check_server, check_bind, check_exposure, check_hosts,
  check_limits, check_jobs, check_scope, check_cidrs, check_allowed_ports, duplicate_port,
}
use corta_sentry.Config.Safe.{IsSafe, validate-IsSafe}
use corta_sentry.Tests.Codec.{codec}
use corta_sentry.Tests.Scope.{loopback, config}

abbrev loopback_bind : BindText
loopback_bind = record { split_host_port = λ s. some (loopback, []); port_parses = λ a p. true }

abbrev limits : Limits
limits = record {
  max_concurrency = 32;
  connects_per_second = 50000000;
  per_host_connects_per_second = 5000000;
  connect_timeout = 750000000;
  read_timeout = 1000000000;
  max_banner_bytes = 8192;
  max_http_body_bytes = 65536;
  max_headers = 100;
  max_redirects = pos 0;
  max_job_duration = 600000000000;
}

abbrev settings : ScopeConfig → Config
settings s = record {
  version = 1;
  server = record {
    bind = loopback;
    data_dir = b'd' ∷ [];
    database = b'b' ∷ [];
    unsafe_public_bind = false;
    secure_cookies = false;
    unsafe_allow_insecure_cookies = false;
    allowed_hosts = [];
  };
  scope = s;
  limits = limits;
  jobs = record {
    workers = 2;
    max_queued = 1024;
    lease_duration = 30000000000;
    poll_interval = 250000000;
  };
}

settings_valid : validate codec loopback_bind (settings config) ≡ none
unfolding validate check_server check_bind check_exposure check_hosts check_limits check_jobs
    check_scope check_cidrs check_allowed_ports unmap is_loopback elem
settings_valid = refl

repeated_port :
    validate codec loopback_bind (settings (record config { allowed_ports = 80 ∷ 80 ∷ [] }))
    ≡ some (duplicate_port 80)
unfolding validate check_server check_bind check_exposure check_hosts check_limits check_jobs
    check_scope check_cidrs check_allowed_ports unmap is_loopback elem
repeated_port = refl

validate-IsSafe_example : IsSafe codec loopback_bind (settings config)
validate-IsSafe_example = validate-IsSafe codec loopback_bind (settings config) settings_valid
