-- ===== src/Service/Handler.antt =====
-- cmd/cortasentry/main.go: the handler that the job manager runs, and the parsing of ports.
pub mod Aimed
use corta_sentry.Prelude.{
  ℕ, ◌+◌, Bool, true, false, ◌&&◌, ◌||◌, not, Option, none, some, List, [], ◌∷◌, Result, ok, err,
  Text, ltb, ◌==◌, if◌then◌else◌, trim_space, map,
}
use corta_sentry.Scope.Address.{Addr}
use corta_sentry.Scope.Engine.{JobError}
use corta_sentry.Scope.Job.{validate_job}
use corta_sentry.Jobs.Model.{JobType, discovery}
use corta_sentry.Discovery.Dialer.{Probing}
use corta_sentry.Discovery.Run.{Scanner, Surroundings, Run, run_with_progress}
use corta_sentry.Importer.Pipeline.{FindingStore, derive_findings}

-- The payload of a job, if it decodes.
pub record Payload : Type 0 where
  pub targets : List Text
  pub ports : List ℕ

pub data HandlerError : Type 0 where
  unsupported_job bad_payload run_stopped findings_failed : HandlerError
  scope_error : JobError → HandlerError

abbrev is_discovery : JobType → Bool
is_discovery discovery = true
is_discovery _ = false

module _ {S T : Type 0} (s : Scanner S T) (findings : FindingStore T) (around : Surroundings) where
  abbrev pub Handled : Type 0
  Handled = Result HandlerError (Unit {0}) × Probing S × T

  -- What follows the validation.
  unfoldable pub run_job : List Addr → List ℕ → Probing S → T → Handled
  run_job aa pp st t =
      let r = run_with_progress s around aa pp st t in
      if not r.1
      then (err run_stopped, r.0.probing, r.0.records)
      else let f =
          derive_findings s.store findings s.deriver.encoders.null_json r.0.probing.world.clock
            false [] r.0.result.asset_ids r.0.records in
        ((if f.0 then ok tt else err findings_failed), r.0.probing, f.1)

  -- The handler of openApp. The scope is checked again, by the engine of the scanner.
  unfoldable pub handle_job : JobType → Option Payload → Probing S → T → Handled
  unfolding run_job
  handle_job type payload st t =
      if not (is_discovery type) then (err unsupported_job, st, t) else elim payload [
        | none ↦ (err bad_payload, st, t)
        | some p ↦
            (let v = validate_job s.net s.engine st.world p.targets p.ports in
              let st' = record st { world = v.1 } in
              elim v.0 [
                | err x ↦ (err (scope_error x), st', t)
                | ok (aa, pp) ↦ run_job aa pp st' t
              ])
      ]

-- strings.Split(raw, ","): at least one part.
unfoldable pub split_commas : Text → List Text
split_commas [] = [] ∷ []
split_commas (c ∷ s) =
    let rest = split_commas s in
    if c == b',' then [] ∷ rest else elim rest [ [] ↦ (c ∷ []) ∷ [] | p ∷ ps ↦ (c ∷ p) ∷ ps ]

-- The loop of parsePorts, on what strconv.Atoi makes of a text; a negative number is 0.
unfoldable pub read_ports : (Text → Option ℕ) → List Text → Option (List ℕ)
read_ports atoi [] = some []
read_ports atoi (x ∷ xs) =
    let rest = read_ports atoi xs in
    elim (atoi (trim_space x)) [
      | none ↦ none
      | some p ↦
          if ltb p 1 || ltb 65535 p
          then none
          else elim rest [ none ↦ none | some ps ↦ some (p ∷ ps) ]
    ]

-- parsePorts.
unfoldable pub parse_ports : (Text → Option ℕ) → Text → Option (List ℕ)
unfolding split_commas read_ports
parse_ports atoi [] = none
parse_ports atoi (c ∷ s) = read_ports atoi (split_commas (c ∷ s))
