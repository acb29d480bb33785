-- ===== src/Config/Safe.antt =====
-- internal/config/config.go: what a configuration that Validate accepts guarantees.
use corta_sentry.Prelude.{
  ℕ, ◌≤◌, ◌<◌, ◌≡◌, ◌≢◌, refl, Bool, true, false, ◌&&◌, none, some, List, [], ◌∷◌, elem, Text,
  arith, ◌==◌, Bool-cases, Option-cases, inl, inr, ◌⊎◌,
}
use corta_sentry.Scope.Address.{Addr, NetText, unmap, is_loopback}
use corta_sentry.Scope.Engine.{ScopeConfig}
use corta_sentry.Config.{
  pos, Server, Limits, JobLimits, Config, BindText, no_hosts, check_exposure, check_bind,
  check_server, check_limits, check_jobs, check_allowed_ports, check_scope, validate,
}

-- The server is reachable from the loopback interface only, or it was said that it may be public,
-- with secure cookies or the exception for them, and with a list of hosts.
abbrev pub IsGuarded : Addr → Server → Type 0
IsGuarded a s =
    (is_loopback (unmap a) ≡ true)
    ⊎ ((s.unsafe_public_bind ≡ true)
        × ((s.secure_cookies ≡ true) ⊎ (s.unsafe_allow_insecure_cookies ≡ true))
        × (s.allowed_hosts ≢ []))

hosts_given : (hosts : List Text) → no_hosts hosts ≡ false → hosts ≢ []
hosts_given [] h = cc
hosts_given (x ∷ hosts) h = λ z. cc

exposure-IsGuarded : (a : Addr) (s : Server) → check_exposure a s ≡ none → IsGuarded a s
unfolding check_exposure
exposure-IsGuarded a s h = elim (Bool-cases (is_loopback (unmap a))) [
  | inl y ↦ inl y
  | inr n ↦ inr (ground arith, ground arith, hosts_given s.allowed_hosts (ground arith))
]

bind-IsGuarded :
    (net : NetText) (bt : BindText) (s : Server)
    → check_bind net bt s ≡ none
    → (host : Text) × (port : Text) × (a : Addr) × (bt.split_host_port s.bind ≡ some (host, port))
      × (net.parse_addr host ≡ some a)
      × IsGuarded a s
unfolding check_bind
bind-IsGuarded net bt s h = elim (Option-cases (bt.split_host_port s.bind)) [
  | inl n ↦ absurd (ground arith)
  | inr ((host, port), e) ↦ elim (Option-cases (net.parse_addr host)) [
    | inl n ↦ absurd (ground arith)
    | inr (a, f) ↦ (host, port, a, e, f, exposure-IsGuarded a s (ground arith))
  ]
]

-- Ports in range, none of them twice.
abbrev pub ArePorts : List ℕ → List ℕ → Type 0
ArePorts seen [] = Unit
ArePorts seen (p ∷ ports) =
    (1 ≤ p) × (p ≤ 65535) × (elem ◌==◌ p seen ≡ false) × ArePorts (p ∷ seen) ports

allowed-ArePorts :
    (seen ports : List ℕ) → check_allowed_ports seen ports ≡ none → ArePorts seen ports
unfolding check_allowed_ports
allowed-ArePorts seen [] h = tt
allowed-ArePorts seen (p ∷ ports) h =
    let rest : check_allowed_ports (p ∷ seen) ports ≡ none = ground arith in
    let (x, y, z) : (1 ≤ p) × (p ≤ 65535) × (elem ◌==◌ p seen ≡ false) = ground arith in
    (x, y, z, allowed-ArePorts (p ∷ seen) ports rest)

server_bind :
    (net : NetText) (bt : BindText) (s : Server)
    → check_server net bt s ≡ none
    → check_bind net bt s ≡ none
unfolding check_server
server_bind net bt s h = ground arith

jobs_lem :
    (j : JobLimits)
    → check_jobs j ≡ none
    → (j.poll_interval < j.lease_duration) × (1 ≤ j.workers) × (1 ≤ j.max_queued)
unfolding check_jobs
jobs_lem j h = (ground arith, ground arith, ground arith)

limits_lem : (l : Limits) → check_limits l ≡ none → l.max_redirects ≡ pos 0
unfolding check_limits
limits_lem l h = ground arith

cidrs_given :
    (active : Bool) (cidrs : List Text)
    → (active && no_hosts cidrs) ≡ false
    → (active ≡ false) ⊎ (cidrs ≢ [])
cidrs_given false cidrs h = inl refl
cidrs_given true cidrs h = inr (hosts_given cidrs h)

scope_lem :
    (net : NetText) (s : ScopeConfig)
    → check_scope net s ≡ none
    → (check_allowed_ports [] s.allowed_ports ≡ none)
      × ((s.active_enabled ≡ false) ⊎ (s.allowed_cidrs ≢ []))
unfolding check_scope
scope_lem net s h = (ground arith, cidrs_given s.active_enabled s.allowed_cidrs (ground arith))

-- What must hold of a configuration.
pub record IsSafe (net : NetText) (bt : BindText) (c : Config) : Type 0 where
  pub guarded :
      (host : Text) × (port : Text) × (a : Addr) × (bt.split_host_port c.server.bind
        ≡ some (host, port))
      × (net.parse_addr host ≡ some a)
      × IsGuarded a c.server
  pub ports : ArePorts [] c.scope.allowed_ports
  pub hosts_positive : 1 ≤ c.scope.max_hosts_per_job
  pub ports_positive : 1 ≤ c.scope.max_ports_per_host
  pub scoped : (c.scope.active_enabled ≡ false) ⊎ (c.scope.allowed_cidrs ≢ [])
  pub lease_renewable : c.jobs.poll_interval < c.jobs.lease_duration
  pub workers_positive : 1 ≤ c.jobs.workers
  pub queue_positive : 1 ≤ c.jobs.max_queued
  pub no_redirects : c.limits.max_redirects ≡ pos 0

-- A configuration that Validate accepts is safe: a server that is not on the loopback interface was
-- said to be public, with secure cookies or the exception for them and a list of hosts; allowed
-- ports are distinct and in range; budgets, workers and the queue bound are positive; active
-- scanning has allowed prefixes; a lease outlasts the poll interval; and redirects are not
-- followed.
pub validate-IsSafe :
    (net : NetText) (bt : BindText) (c : Config) → validate net bt c ≡ none → IsSafe net bt c
unfolding validate
validate-IsSafe net bt c h =
    let b : check_server net bt c.server ≡ none = ground arith in
    let f : check_limits c.limits ≡ none = ground arith in
    let j = jobs_lem c.jobs (ground arith) in
    let s = scope_lem net c.scope (ground arith) in
    record {
      guarded = bind-IsGuarded net bt c.server (server_bind net bt c.server b);
      ports = allowed-ArePorts [] c.scope.allowed_ports s.0;
      hosts_positive = ground arith;
      ports_positive = ground arith;
      scoped = s.1;
      lease_renewable = j.0;
      workers_positive = j.1;
      queue_positive = j.2;
      no_redirects = limits_lem c.limits f;
    }
