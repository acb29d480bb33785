-- ===== src/Service/Handler/Aimed.antt =====
-- cmd/cortasentry/main.go: what the handler of a job connects to.
use corta_sentry.Prelude.{
  ℕ, ◌≡◌, refl, ◌∙◌, Option, List, ◌++◌, Bool-cases, Option-cases, Result-cases, inl, inr, All,
}
use corta_sentry.Scope.Address.{Addr}
use corta_sentry.Scope.Job.{validate_job}
use corta_sentry.Scope.Validate.{IsValidJob, validate_job-IsValidJob}
use corta_sentry.Jobs.Model.{JobType}
use corta_sentry.Discovery.Dialer.{Probing}
use corta_sentry.Discovery.Probe.Safety.{Attempts}
use corta_sentry.Discovery.Run.{Scanner, Surroundings, run_with_progress}
use corta_sentry.Discovery.Run.Safety.{IsListed, run_with_progress-IsListed}
use corta_sentry.Importer.Pipeline.{FindingStore}
use corta_sentry.Service.Handler.{Payload, handle_job, run_job, is_discovery, Handled}

module _ {S T : Type 0} (s : Scanner S T) (findings : FindingStore T) (around : Surroundings)
    (st : Probing S) (t : T) where
  -- The connections of a handled job: none, or those of a job that validation accepts.
  pub data IsAimed (h : Handled s findings around) : Type 0 where
    idle : h.1.dialed ≡ st.dialed → IsAimed h
    scanned :
        (aa : List Addr) (pp : List ℕ) (new : Attempts)
        → IsValidJob s.net s.engine aa pp
        → h.1.dialed ≡ new ++ st.dialed
        → All (IsListed s aa pp) new
        → IsAimed h

  run_job-dialed :
      (aa : List Addr) (pp : List ℕ) (u : Probing S)
      → (run_job s findings around aa pp u t).1.dialed
        ≡ (run_with_progress s around aa pp u t).0.probing.dialed
  unfolding run_job
  run_job-dialed aa pp u = elim (Bool-cases (run_with_progress s around aa pp u t).1) [
    | inl y ↦ rw y refl
    | inr n ↦ rw n refl
  ]

  -- A job that the handler runs, whatever its type and payload are, makes no connection, or only
  -- connections to the targets and ports of a job that ValidateJob accepts when the handler starts:
  -- within the budgets, with no probe twice, each allowed by the policy.
  pub handle_job-IsAimed :
      (type : JobType) (payload : Option Payload)
      → IsAimed (handle_job s findings around type payload st t)
  unfolding handle_job
  handle_job-IsAimed type payload = elim (Bool-cases (is_discovery type)) [
    | inr n ↦ rw n (idle refl)
    | inl y ↦ elim (Option-cases payload) [
      | inl z ↦ rw (y, z) (idle refl)
      | inr (p, e) ↦
          let v = validate_job s.net s.engine st.world p.targets p.ports in
          let st' = record st { world = v.1 } in
          elim (Result-cases v.0) [
            | inr (x, h) ↦ rw (y, e, h) (idle refl)
            | inl ((aa, pp), h) ↦
                let (new, q, k) = run_with_progress-IsListed s aa pp around st' t in
                rw (y, e, h)
                  (scanned aa pp new
                    (validate_job-IsValidJob s.net s.engine st.world p.targets p.ports h)
                    (run_job-dialed aa pp st' ∙ q) k)
          ]
    ]
  ]
