-- ===== src/Scope/Engine.antt =====
-- internal/scope/engine.go: the engine's state, its construction and the decision on one target.
use corta_sentry.Prelude.{
  ℕ, ◌+◌, Bool, true, false, ◌&&◌, ◌||◌, not, Option, none, some, List, [], ◌∷◌, ◌++◌, length, any,
  Result, ok, err, ◌>>=◌, Text, ltb, ◌==◌, if◌then◌else◌, elem,
}
use corta_sentry.Scope.Address.{
  Addr, Prefix, NetText, PrefixError, parse_prefix, normalize_addr, is_unspecified, is_multicast,
  is_broadcast, is_private_or_loopback, contains,
}

-- config.Scope. Ports are numbers: an int below 1 is represented by 0.
pub record ScopeConfig : Type 0 where
  pub active_enabled : Bool
  pub allowed_cidrs : List Text
  pub denied_cidrs : List Text
  pub allow_public_targets : Bool
  pub allowed_ports : List ℕ
  pub excluded_ports : List ℕ
  pub max_hosts_per_job : ℕ
  pub max_ports_per_host : ℕ

pub data Phase : Type 0 where
  preflight execution : Phase

-- Decision.Reason: the texts of the source, a constructor each; `unset` is the empty text.
pub data Reason : Type 0 where
  unset active_disabled invalid_ip unspecified_or_multicast broadcast_forbidden public_disabled
        outside_allowlist denied_by_denylist invalid_port port_excluded port_outside_allowlist
        authorized audit_failed :
      Reason

pub record Decision : Type 0 where
  pub id : ℕ
  pub phase : Phase
  pub allowed : Bool
  pub reason : Reason
  pub target : Text
  pub port : ℕ
  pub at : ℕ

-- The Auditor interface: a state, and an operation that may fail to record.
abbrev pub Auditor : Type 0 → Type 0
Auditor S = S → Decision → Option S

pub record Engine (S : Type 0) : Type 0 where
  pub cfg : ScopeConfig
  pub allow : List Prefix
  pub deny : List Prefix
  pub allowed_ports : List ℕ
  pub excluded : List ℕ
  pub audit : Option (Auditor S)

pub data EngineError : Type 0 where
  bad_prefix : PrefixError → EngineError
  bad_port : ℕ → EngineError
  bad_excluded_port : ℕ → EngineError
  bad_budgets : EngineError

pub data JobError : Type 0 where
  empty_job host_budget port_budget bad_target normalized_budget : JobError
  scope_denied : Addr → ℕ → Reason → JobError

abbrev pub in_port_range : ℕ → Bool
in_port_range p = not (ltb p 1 || ltb 65535 p)

-- m[p] = struct{}{}, for a map used as a set.
unfoldable pub set_insert : ℕ → List ℕ → List ℕ
set_insert p ps = if elem ◌==◌ p ps then ps else ps ++ p ∷ []

-- What the code takes from outside: the store behind the auditor, fresh identifiers, the clock.
pub record World (S : Type 0) : Type 0 where
  pub store : S
  pub next_id : ℕ
  pub clock : ℕ

unfoldable pub load_ports : (ℕ → EngineError) → List ℕ → List ℕ → Result EngineError (List ℕ)
unfolding set_insert
load_ports bad acc [] = ok acc
load_ports bad acc (p ∷ ps) =
    let rest = load_ports bad (set_insert p acc) ps in if in_port_range p then rest else err (bad p)

module _ (net : NetText) where
  unfoldable pub load_prefixes : List Text → Result EngineError (List Prefix)
  load_prefixes [] = ok []
  load_prefixes (raw ∷ rest) = elim (parse_prefix net raw) [
    | err e ↦ err (bad_prefix e)
    | ok p ↦ load_prefixes rest >>= λ ps. ok (p ∷ ps)
  ]

  -- New.
  unfoldable pub new :
      {S : Type 0} → ScopeConfig → Option (Auditor S) → Result EngineError (Engine S)
  unfolding load_prefixes load_ports
  new c a = load_prefixes c.allowed_cidrs >>= λ allow. load_prefixes c.denied_cidrs >>= λ deny.
      load_ports bad_port [] c.allowed_ports >>= λ ports.
      load_ports bad_excluded_port [] c.excluded_ports >>= λ excluded.
      if ltb c.max_hosts_per_job 1 || ltb c.max_ports_per_host 1
      then err bad_budgets
      else ok (record {
        cfg = c;
        allow = allow;
        deny = deny;
        allowed_ports = ports;
        excluded = excluded;
        audit = a;
      })

module _ {S : Type 0} where
  -- finalize: a decision that cannot be recorded is turned into a refusal.
  unfoldable pub finalize : Engine S → World S → Decision → Decision × World S
  finalize e w d = elim e.audit [
    | none ↦ (d, w)
    | some persist ↦ elim (persist w.store d) [
      | none ↦ (record d { allowed = false; reason = audit_failed }, w)
      | some s ↦ (d, record w { store = s })
    ]
  ]

  -- The tests of `decide` on a target that parsed, in their order.
  unfoldable pub judge : Engine S → Addr → ℕ → Decision → Decision
  judge e a port d =
      if is_unspecified a || is_multicast a
      then record d { reason = unspecified_or_multicast }
      else if is_broadcast a
      then record d { reason = broadcast_forbidden }
      else if not e.cfg.allow_public_targets && not (is_private_or_loopback a)
      then record d { reason = public_disabled }
      else if not (any (λ p. contains p a) e.allow)
      then record d { reason = outside_allowlist }
      else if any (λ p. contains p a) e.deny
      then record d { reason = denied_by_denylist }
      else if ltb port 1 || ltb 65535 port
      then record d { reason = invalid_port }
      else if elem ◌==◌ port e.excluded
      then record d { reason = port_excluded }
      else if ltb 0 (length e.allowed_ports) && not (elem ◌==◌ port e.allowed_ports)
      then record d { reason = port_outside_allowlist }
      else record d { allowed = true; reason = authorized }

  -- The decision that `decide` starts from, with a new identifier.
  abbrev pub request : World S → Text → ℕ → Phase → Decision
  request w target port phase = record {
    id = w.next_id;
    phase = phase;
    allowed = false;
    reason = unset;
    target = target;
    port = port;
    at = w.clock;
  }

  abbrev pub numbered : World S → World S
  numbered w = record w { next_id = w.next_id + 1 }

  -- decide.
  unfoldable pub decide : NetText → Engine S → World S → Text → ℕ → Phase → Decision × World S
  decide net e w target port phase =
      if not e.cfg.active_enabled
      then finalize e (numbered w)
          (record (request w target port phase) { reason = active_disabled })
      else elim (normalize_addr net target) [
        | none ↦
            finalize e (numbered w) (record (request w target port phase) { reason = invalid_ip })
        | some a ↦ finalize e (numbered w) (judge e a port (request w (net.show a) port phase))
      ]
