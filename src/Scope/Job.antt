-- ===== src/Scope/Job.antt =====
-- internal/scope/engine.go: ValidateJob and PreviewJob.
use corta_sentry.Prelude.{
  ℕ, true, false, ◌||◌, Option, none, some, List, [], ◌∷◌, ◌++◌, length, Result, ok, err, Text, ltb,
  ◌==◌, if◌then◌else◌, elem, dedupe, sort_by,
}
use corta_sentry.Scope.Address.{Addr, NetText, normalize_addr, addr_eq, addr_less}
use corta_sentry.Scope.Engine.{
  JobError, empty_job, host_budget, port_budget, bad_target, normalized_budget, scope_denied,
  Engine, World, preflight, decide,
}

-- The loop over the targets: the first text that does not parse ends it.
unfoldable pub collect_addrs : NetText → List Addr → List Text → Result JobError (List Addr)
collect_addrs net out [] = ok out
collect_addrs net out (t ∷ ts) = elim (normalize_addr net t) [
  | none ↦ err bad_target
  | some a ↦ collect_addrs net (if elem addr_eq a out then out else out ++ a ∷ []) ts
]

-- The tests on the sizes, before anything is read.
unfoldable pub check_budget : {S : Type 0} → Engine S → ℕ → ℕ → Option JobError
check_budget e hosts ports =
    if hosts == 0 || ports == 0
    then some empty_job
    else if ltb e.cfg.max_hosts_per_job hosts
    then some host_budget
    else if ltb e.cfg.max_ports_per_host ports
    then some port_budget
    else none

module _ (net : NetText) {S : Type 0} (e : Engine S) where
  -- The two loops over the normalised targets and ports: the first refusal ends them.
  unfoldable pub check_ports : World S → Addr → List ℕ → Result JobError (Unit {0}) × World S
  check_ports w a [] = (ok tt, w)
  check_ports w a (p ∷ ps) =
      let d = decide net e w (net.show a) p preflight in
      elim d.0.allowed [
        | true ↦ check_ports d.1 a ps
        | false ↦ (err (scope_denied a p d.0.reason), d.1)
      ]

  unfoldable pub check_targets : World S → List Addr → List ℕ → Result JobError (Unit {0}) × World S
  check_targets w [] ps = (ok tt, w)
  check_targets w (a ∷ aa) ps =
      let r = check_ports w a ps in
      elim r.0 [ ok _ ↦ check_targets r.1 aa ps | err x ↦ (err x, r.1) ]

  -- ValidateJob.
  unfoldable pub validate_job :
      World S → List Text → List ℕ → Result JobError (List Addr × List ℕ) × World S
  validate_job w targets ports = elim (check_budget e (length targets) (length ports)) [
    | some x ↦ (err x, w)
    | none ↦ elim (collect_addrs net [] targets) [
      | err x ↦ (err x, w)
      | ok aa ↦
          let pp = dedupe ◌==◌ [] ports in
          if ltb e.cfg.max_hosts_per_job (length aa) || ltb e.cfg.max_ports_per_host (length pp)
          then (err normalized_budget, w)
          else let r = check_targets w aa pp in
            elim r.0 [
              | err x ↦ (err x, r.1)
              | ok _ ↦ (ok (sort_by addr_less aa, sort_by ltb pp), r.1)
            ]
    ]
  ]

-- PreviewJob: a copy of the engine with no auditor.
unfoldable pub preview_job :
    NetText
    → {S : Type 0} → Engine S
    → World S
    → List Text
    → List ℕ
    → Result JobError (List Addr × List ℕ) × World S
preview_job net e w targets ports = validate_job net (record e { audit = none }) w targets ports
