-- ===== src/Scope/Preview.antt =====
-- internal/scope/engine.go: PreviewJob against ValidateJob.
use corta_sentry.Prelude.{
  ℕ, ◌≡◌, refl, ap, ◌≢◌, none, some, List, [], ◌∷◌, Text, arith, inl, inr, Bool-cases, Option-cases,
  Result-cases, dedupe, ◌==◌,
}
use corta_sentry.Scope.Address.{Addr, NetText, normalize_addr}
use corta_sentry.Scope.Engine.{
  Phase, Decision, Auditor, Engine, World, preflight, decide, finalize, judge, request, numbered,
  active_disabled, invalid_ip,
}
use corta_sentry.Scope.Decide.{decide_read, decide_disabled, decide_invalid}
use corta_sentry.Scope.Job.{
  collect_addrs, check_budget, check_ports, check_targets, validate_job, preview_job,
}

abbrev unaudited : {S : Type 0} → Engine S → Engine S
unaudited e = record e { audit = none }

module _ (net : NetText) {S : Type 0} (e : Engine S) where
  finalize-unaudited : (w : World S) (d : Decision) → finalize (unaudited e) w d ≡ (d, w)
  unfolding finalize
  finalize-unaudited w d = refl

  decide-store :
      (w : World S) (t : Text) (p : ℕ) (ph : Phase)
      → (decide net (unaudited e) w t p ph).1.store ≡ w.store
  unfolding decide finalize
  decide-store w t p ph = ground arith

  check_ports-store :
      (w : World S) (a : Addr) (ps : List ℕ)
      → (check_ports net (unaudited e) w a ps).1.store ≡ w.store
  unfolding check_ports
  check_ports-store w a [] = refl
  check_ports-store w a (p ∷ ps) =
      let d = decide net (unaudited e) w (net.show a) p preflight in
      ground (arith, decide-store w (net.show a) p preflight, check_ports-store d.1 a ps)

  check_targets-store :
      (w : World S) (aa : List Addr) (ps : List ℕ)
      → (check_targets net (unaudited e) w aa ps).1.store ≡ w.store
  unfolding check_targets
  check_targets-store w [] ps = refl
  check_targets-store w (a ∷ aa) ps =
      let r = check_ports net (unaudited e) w a ps in
      ground (arith, check_ports-store w a ps, check_targets-store r.1 aa ps)

  -- A preview leaves the store as it was, whatever it answers.
  pub preview_job-store :
      (w : World S) (targets : List Text) (ports : List ℕ)
      → (preview_job net e w targets ports).1.store ≡ w.store
  unfolding preview_job validate_job
  preview_job-store w targets ports = elim (Result-cases (collect_addrs net [] targets)) [
    | inr (x, n) ↦ ground arith
    | inl (raw, y) ↦ ground (arith, check_targets-store w raw (dedupe ◌==◌ [] ports))
  ]

-- The auditor, if there is one, never fails.
abbrev pub AlwaysRecords : {S : Type 0} → Engine S → Type 0
AlwaysRecords {S} e =
    (persist : Auditor S) → e.audit ≡ some persist → (s : S) (d : Decision) → persist s d ≢ none

-- Two worlds that supply the same identifiers and times.
pub record Agrees {S : Type 0} (v w : World S) : Type 0 where
  pub ids : v.next_id ≡ w.next_id
  pub clocks : v.clock ≡ w.clock

module _ (net : NetText) {S : Type 0} (e : Engine S) (always : AlwaysRecords e) where
  finalize-Agrees :
      (v w : World S) (d : Decision)
      → Agrees v w
      → ((finalize (unaudited e) v d).0 ≡ (finalize e w d).0)
        × Agrees (finalize (unaudited e) v d).1 (finalize e w d).1
  unfolding finalize
  finalize-Agrees v w d g = elim (Option-cases e.audit) [
    | inl n ↦ ground arith
    | inr (persist, au) ↦ ground (arith, always persist au w.store d)
  ]

  finalize-Agrees_same :
      (v w : World S) (c d : Decision)
      → c ≡ d
      → Agrees v w
      → ((finalize (unaudited e) v c).0 ≡ (finalize e w d).0)
        × Agrees (finalize (unaudited e) v c).1 (finalize e w d).1
  finalize-Agrees_same v w c d q g = rw q (finalize-Agrees v w d g)

  numbered-Agrees : (v w : World S) → Agrees v w → Agrees (numbered v) (numbered w)
  numbered-Agrees v w g = record { ids = rw g.ids; clocks = g.clocks }

  request-Agrees :
      (v w : World S) (t : Text) (p : ℕ) (ph : Phase)
      → Agrees v w
      → request v t p ph ≡ request w t p ph
  request-Agrees v w t p ph g = ground arith

  judge-unaudited : (a : Addr) (p : ℕ) (d : Decision) → judge (unaudited e) a p d ≡ judge e a p d
  unfolding judge
  judge-unaudited a p d = refl

  decide-Agrees :
      (v w : World S) (t : Text) (p : ℕ) (ph : Phase)
      → Agrees v w
      → ((decide net (unaudited e) v t p ph).0 ≡ (decide net e w t p ph).0)
        × Agrees (decide net (unaudited e) v t p ph).1 (decide net e w t p ph).1
  decide-Agrees v w t p ph g = elim (Bool-cases e.cfg.active_enabled) [
    | inr off ↦
        rw (decide_disabled net e w t p ph off, decide_disabled net (unaudited e) v t p ph off)
          (finalize-Agrees_same (numbered v) (numbered w) _ _
            (ap (λ (d : Decision). record d { reason = active_disabled })
              (request-Agrees v w t p ph g))
            (numbered-Agrees v w g))
    | inl on ↦ elim (Option-cases (normalize_addr net t)) [
      | inl n ↦
          rw (decide_invalid net e w t p ph on n, decide_invalid net (unaudited e) v t p ph on n)
            (finalize-Agrees_same (numbered v) (numbered w) _ _
              (ap (λ (d : Decision). record d { reason = invalid_ip })
                (request-Agrees v w t p ph g))
              (numbered-Agrees v w g))
      | inr (a, n) ↦
          rw
            (
              decide_read net e w t p ph a on n,
              decide_read net (unaudited e) v t p ph a on n,
              judge-unaudited a p,
            )
            (finalize-Agrees_same (numbered v) (numbered w) _ _
              (ap (judge e a p) (request-Agrees v w (net.show a) p ph g)) (numbered-Agrees v w g))
    ]
  ]

  check_ports-Agrees :
      (v w : World S) (a : Addr) (ps : List ℕ)
      → Agrees v w
      → ((check_ports net (unaudited e) v a ps).0 ≡ (check_ports net e w a ps).0)
        × Agrees (check_ports net (unaudited e) v a ps).1 (check_ports net e w a ps).1
  unfolding check_ports
  check_ports-Agrees v w a [] g = (refl, g)
  check_ports-Agrees v w a (p ∷ ps) g =
      let c = decide net (unaudited e) v (net.show a) p preflight in
      let d = decide net e w (net.show a) p preflight in
      let (same, g') = decide-Agrees v w (net.show a) p preflight g in
      ground (arith, check_ports-Agrees c.1 d.1 a ps g')

  check_targets-Agrees :
      (v w : World S) (aa : List Addr) (ps : List ℕ)
      → Agrees v w
      → (check_targets net (unaudited e) v aa ps).0 ≡ (check_targets net e w aa ps).0
  unfolding check_targets
  check_targets-Agrees v w [] ps g = refl
  check_targets-Agrees v w (a ∷ aa) ps g =
      let c = check_ports net (unaudited e) v a ps in
      let d = check_ports net e w a ps in
      let (same, g') = check_ports-Agrees v w a ps g in
      ground (arith, check_targets-Agrees c.1 d.1 aa ps g')

  -- If the auditor never fails, a preview of a job gives the answer that its validation gives.
  pub preview_job-validate_job :
      (w : World S) (targets : List Text) (ports : List ℕ)
      → (preview_job net e w targets ports).0 ≡ (validate_job net e w targets ports).0
  unfolding preview_job validate_job check_budget
  preview_job-validate_job w targets ports = elim (Result-cases (collect_addrs net [] targets)) [
    | inr (x, n) ↦ ground arith
    | inl (raw, y) ↦ ground (
      arith,
      check_targets-Agrees w w raw (dedupe ◌==◌ [] ports) (record { ids = refl; clocks = refl }),
    )
  ]
