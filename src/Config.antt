-- ===== src/Config.antt =====
-- internal/config/config.go: the configuration that Validate reads, and Validate. Ints, durations
-- and rates below 1 are represented by 0, where the code treats them alike; a rate is in millionths.
pub mod Safe
use corta_sentry.Prelude.{
  ℕ, ◌*◌, ◌^◌, Bool, true, false, ◌&&◌, ◌||◌, not, Option, none, some, List, [], ◌∷◌, ◌++◌, any,
  elem, length, Text, ltb, leb, ◌==◌, if◌then◌else◌, trim_space,
}
use corta_sentry.Scope.Address.{Addr, NetText, unmap, is_loopback}
use corta_sentry.Scope.Engine.{ScopeConfig}

pub record Server : Type 0 where
  pub bind : Text
  pub data_dir : Text
  pub database : Text
  pub unsafe_public_bind : Bool
  pub secure_cookies : Bool
  pub unsafe_allow_insecure_cookies : Bool
  pub allowed_hosts : List Text

-- A signed number; `negsuc n` is -(n + 1).
pub data ℤ : Type 0 where
  pos : ℕ → ℤ
  negsuc : ℕ → ℤ

abbrev pub is_zero : ℤ → Bool
is_zero (pos n) = n == 0
is_zero (negsuc n) = false

pub record Limits : Type 0 where
  pub max_concurrency : ℕ
  pub connects_per_second : ℕ
  pub per_host_connects_per_second : ℕ
  pub connect_timeout : ℕ
  pub read_timeout : ℕ
  pub max_banner_bytes : ℕ
  pub max_http_body_bytes : ℕ
  pub max_headers : ℕ
  pub max_redirects : ℤ
  pub max_job_duration : ℕ

pub record JobLimits : Type 0 where
  pub workers : ℕ
  pub max_queued : ℕ
  pub lease_duration : ℕ
  pub poll_interval : ℕ

-- Config, less the sections that Validate does not read.
pub record Config : Type 0 where
  pub version : ℕ
  pub server : Server
  pub scope : ScopeConfig
  pub limits : Limits
  pub jobs : JobLimits

pub data ConfigError : Type 0 where
  unsupported_version missing_paths bad_bind bind_not_ip bad_bind_port public_bind
        insecure_cookies :
      ConfigError
  hosts_required bad_host bad_budgets bad_concurrency bad_rates bad_headers bad_timeouts bad_sizes :
      ConfigError
  redirects_unsupported bad_workers bad_durations bad_cidr active_without_cidrs : ConfigError
  bad_port duplicate_port : ℕ → ConfigError

-- net.SplitHostPort, and whether netip.ParseAddrPort takes an address joined with a port.
pub record BindText : Type 0 where
  pub split_host_port : Text → Option (Text × Text)
  pub port_parses : Addr → Text → Bool

-- One check after another: the first error ends Validate.
infixr 4 ◌then_check◌
abbrev pub ◌then_check◌ : Option ConfigError → Option ConfigError → Option ConfigError
none then_check o = o
some e then_check o = some e

abbrev pub refuse : Bool → ConfigError → Option ConfigError
refuse true e = some e
refuse false e = none

abbrev pub is_blank : Text → Bool
is_blank [] = true
is_blank (c ∷ s) = false

-- strings.ContainsAny(host, "/\\ \t\r\n")
abbrev pub bad_host_byte : ℕ → Bool
bad_host_byte c = c == b'/' || (c == 92 || (c == 32 || (c == 9 || (c == 13 || c == 10))))

unfoldable pub check_hosts : List Text → Option ConfigError
check_hosts [] = none
check_hosts (h ∷ hosts) =
    let host = trim_space h in
    refuse (is_blank host || (ltb 255 (length host) || any bad_host_byte host)) bad_host
    then_check check_hosts hosts

abbrev pub no_hosts : List Text → Bool
no_hosts [] = true
no_hosts (h ∷ hosts) = false

-- The tests on the address that the server binds.
unfoldable pub check_exposure : Addr → Server → Option ConfigError
check_exposure a s =
    refuse (not (is_loopback (unmap a)) && not s.unsafe_public_bind) public_bind
    then_check refuse
        (not (is_loopback (unmap a))
          && (not s.secure_cookies && not s.unsafe_allow_insecure_cookies))
        insecure_cookies
    then_check refuse (not (is_loopback (unmap a)) && no_hosts s.allowed_hosts) hosts_required

unfoldable pub check_bind : NetText → BindText → Server → Option ConfigError
check_bind net bt s = elim (bt.split_host_port s.bind) [
  | none ↦ some bad_bind
  | some (host, port) ↦ elim (net.parse_addr host) [
    | none ↦ some bind_not_ip
    | some a ↦ refuse (not (bt.port_parses a port)) bad_bind_port then_check check_exposure a s
  ]
]

unfoldable pub check_server : NetText → BindText → Server → Option ConfigError
unfolding check_bind check_hosts
check_server net bt s =
    refuse (is_blank s.bind || (is_blank s.database || is_blank s.data_dir)) missing_paths
    then_check check_bind net bt s
    then_check check_hosts s.allowed_hosts

unfoldable pub check_limits : Limits → Option ConfigError
check_limits l =
    refuse (ltb l.max_concurrency 1 || ltb 1024 l.max_concurrency) bad_concurrency
    then_check refuse (l.connects_per_second == 0 || l.per_host_connects_per_second == 0) bad_rates
    then_check refuse (ltb l.max_headers 1 || ltb 1000 l.max_headers) bad_headers
    then_check refuse (l.connect_timeout == 0 || (l.read_timeout == 0 || l.max_job_duration == 0))
        bad_timeouts
    then_check refuse
        (ltb l.max_banner_bytes 1
          || (ltb (2 ^ 20) l.max_banner_bytes
              || (ltb l.max_http_body_bytes 1 || ltb (8 * 2 ^ 20) l.max_http_body_bytes)))
        bad_sizes
    then_check refuse (not (is_zero l.max_redirects)) redirects_unsupported

-- Durations in nanoseconds: 5 s and 10 ms.
unfoldable pub check_jobs : JobLimits → Option ConfigError
check_jobs j =
    refuse
      (ltb j.workers 1 || (ltb 64 j.workers || (ltb j.max_queued 1 || ltb 100000 j.max_queued)))
      bad_workers
    then_check refuse
        (ltb j.lease_duration 5000000000
          || (ltb j.poll_interval 10000000 || leb j.lease_duration j.poll_interval))
        bad_durations

unfoldable pub check_cidrs : NetText → List Text → Option ConfigError
check_cidrs net [] = none
check_cidrs net (s ∷ rest) = elim (net.parse_prefix s) [
  | none ↦ some bad_cidr
  | some p ↦ check_cidrs net rest
]

-- The loop over the allowed ports, with the ports it has seen.
unfoldable pub check_allowed_ports : List ℕ → List ℕ → Option ConfigError
check_allowed_ports seen [] = none
check_allowed_ports seen (p ∷ ports) =
    refuse (ltb p 1 || ltb 65535 p) (bad_port p)
    then_check refuse (elem ◌==◌ p seen) (duplicate_port p)
    then_check check_allowed_ports (p ∷ seen) ports

unfoldable pub check_scope : NetText → ScopeConfig → Option ConfigError
check_scope net s =
    check_cidrs net (s.allowed_cidrs ++ s.denied_cidrs)
    then_check check_allowed_ports [] s.allowed_ports
    then_check refuse (s.active_enabled && no_hosts s.allowed_cidrs) active_without_cidrs

-- Validate: no error, or the first one.
unfoldable pub validate : NetText → BindText → Config → Option ConfigError
validate net bt c =
    refuse (not (c.version == 1)) unsupported_version
    then_check check_server net bt c.server
    then_check refuse (ltb c.scope.max_hosts_per_job 1 || ltb c.scope.max_ports_per_host 1)
        bad_budgets
    then_check check_limits c.limits
    then_check check_jobs c.jobs
    then_check check_scope net c.scope
