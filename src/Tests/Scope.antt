-- ===== src/Tests/Scope.antt =====
-- internal/scope/engine.go on one engine: it allows the loopback address, and records in a counter.
use corta_sentry.Prelude.{
  ℕ, ◌+◌, ◌*◌, ◌≡◌, refl, ap, true, false, some, List, [], ◌∷◌, arith, Text, Memᴰ, inr, ok,
  trim_space, elem, not_elem, ==_iff, ◌==◌, sort_by, dedupe,
}
use corta_sentry.Scope.Address.{
  Addr, v6, normalize_addr, unmap, contains, is_unspecified, is_multicast, is_broadcast,
  is_private_or_loopback, is_private, is_loopback, is_link_local, addr_eq, addr_less,
}
use corta_sentry.Scope.Engine.{
  ScopeConfig, Auditor, Engine, World, execution, decide, finalize, judge, authorized,
}
use corta_sentry.Scope.Decide.{IsAuthorized, decide-IsAuthorized, decide-of_IsAuthorized}
use corta_sentry.Scope.Job.{
  collect_addrs, check_budget, check_ports, check_targets, validate_job, preview_job,
}
use corta_sentry.Scope.Validate.{validate_job-IsValidJob, IsValidJob}
use corta_sentry.Scope.Preview.{preview_job-validate_job, AlwaysRecords}
use corta_sentry.Scope.Expand.{expand}
use corta_sentry.Scope.Expand.Hosts.{expand-eq-hosts, hosts, network}
use corta_sentry.Tests.Codec.{codec}

abbrev pub loopback : Text
loopback = b'6' ∷ b'x' ∷ []

abbrev pub config : ScopeConfig
config = record {
  active_enabled = true;
  allowed_cidrs = loopback ∷ [];
  denied_cidrs = [];
  allow_public_targets = false;
  allowed_ports = 443 ∷ 80 ∷ [];
  excluded_ports = 22 ∷ [];
  max_hosts_per_job = 2;
  max_ports_per_host = 2;
}

abbrev pub count_decision : Auditor ℕ
count_decision s d = some (s + 1)

abbrev pub engine : Engine ℕ
engine = record {
  cfg = config;
  allow = record { addr = v6 1 0; bits = 128 } ∷ [];
  deny = [];
  allowed_ports = 443 ∷ 80 ∷ [];
  excluded = 22 ∷ [];
  audit = some count_decision;
}

abbrev pub world : World ℕ
world = record { store = 0; next_id = 7; clock = 100 }

loopback_reads : normalize_addr codec loopback ≡ some (v6 1 0)
unfolding normalize_addr unmap trim_space
loopback_reads = refl

loopback_allowed : (decide codec engine world loopback 80 execution).0.allowed ≡ true
unfolding decide finalize judge normalize_addr unmap trim_space contains is_unspecified is_multicast
    is_broadcast is_private_or_loopback is_private is_loopback is_link_local addr_eq elem
loopback_allowed = refl

loopback_denied : (decide codec engine world loopback 22 execution).0.allowed ≡ false
unfolding decide finalize judge normalize_addr unmap trim_space contains is_unspecified is_multicast
    is_broadcast is_private_or_loopback is_private is_loopback is_link_local addr_eq elem
loopback_denied = refl

decide-IsAuthorized_example :
    (a : Addr) × (normalize_addr codec loopback ≡ some a) × IsAuthorized engine a 80
decide-IsAuthorized_example =
    decide-IsAuthorized codec engine world loopback 80 execution loopback_allowed

loopback-IsAuthorized : IsAuthorized engine (v6 1 0) 80
unfolding contains is_unspecified is_multicast is_broadcast is_private_or_loopback is_private
    is_loopback is_link_local addr_eq elem
loopback-IsAuthorized = record {
  active = refl;
  specified = refl;
  unicast = refl;
  not_broadcast = refl;
  reachable = inr refl;
  listed = (record { addr = v6 1 0; bits = 128 }, Memᴰ.head refl, refl);
  not_denied = λ p m. elim m [ ];
  port_positive = omega arith;
  port_bounded = omega arith;
  not_excluded = not_elem ◌==◌ ==_iff 80 (22 ∷ []) refl;
  port_listed = λ ne. Memᴰ.tail (Memᴰ.head refl);
}

pub engine_records : AlwaysRecords engine
engine_records persist e s d h =
    let q : persist ≡ count_decision = cc in
    let r : persist s d ≡ some (s + 1) = ap (λ (f : Auditor ℕ). f s d) q in cc

decide-of_IsAuthorized_example :
    ((decide codec engine world loopback 80 execution).0.allowed ≡ true)
    × ((decide codec engine world loopback 80 execution).0.reason ≡ authorized)
decide-of_IsAuthorized_example =
    decide-of_IsAuthorized codec engine world loopback 80 execution (v6 1 0) loopback_reads
      loopback-IsAuthorized (λ persist e d i. engine_records persist e world.store d)

abbrev pub two_targets : List Text
two_targets = loopback ∷ loopback ∷ []

abbrev pub two_ports : List ℕ
two_ports = 443 ∷ 80 ∷ []

pub job_accepted :
    (validate_job codec engine world two_targets two_ports).0 ≡ ok (v6 1 0 ∷ [], 80 ∷ 443 ∷ [])
unfolding decide finalize judge normalize_addr unmap trim_space contains is_unspecified is_multicast
    is_broadcast is_private_or_loopback is_private is_loopback is_link_local addr_eq addr_less elem
    validate_job check_budget check_targets check_ports collect_addrs sort_by dedupe
job_accepted = refl

validate_job-IsValidJob_example : IsValidJob codec engine (v6 1 0 ∷ []) (80 ∷ 443 ∷ [])
validate_job-IsValidJob_example =
    validate_job-IsValidJob codec engine world two_targets two_ports job_accepted

preview_job-validate_job_example :
    (preview_job codec engine world two_targets two_ports).0
    ≡ (validate_job codec engine world two_targets two_ports).0
preview_job-validate_job_example =
    preview_job-validate_job codec engine engine_records world two_targets two_ports

expand-eq-hosts_example : expand (network 808058880 4 30) 10 ≡ ok (hosts (808058880 * 4 + 1) 2)
expand-eq-hosts_example =
    expand-eq-hosts 808058880 4 30 10 refl (omega arith) (omega arith) (omega arith) (omega arith)
      (omega arith)
