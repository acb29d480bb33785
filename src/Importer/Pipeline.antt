-- ===== src/Importer/Pipeline.antt =====
-- internal/importer/pipeline.go: an imported observation becomes what a scanned one does. The engine
-- of advisories reads the asset as the store answers it.
use corta_sentry.Prelude.{
  ℕ, Bool, true, false, Option, none, some, List, [], ◌∷◌, Text, if◌then◌else◌,
}
use corta_sentry.Findings.Rules.{Finding}
use corta_sentry.Records.Observations.{Observation}
use corta_sentry.Records.Changes.{ChangeEvent, new_potential_finding}
use corta_sentry.Discovery.Store.{ScanStore}
use corta_sentry.Discovery.Changes.{change_of}
use corta_sentry.Discovery.Result.{Deriver}
use corta_sentry.Discovery.Ingest.{ingest_observations}

-- GetAsset with the findings that advisories.Evaluate gives on it, UpsertFinding with whether the
-- finding is new, and the JSON of a new finding.
pub record FindingStore (T : Type 0) : Type 0 where
  pub evaluate : ℕ → T → Option (List Finding)
  pub upsert_finding : Finding → T → Option (Bool × T)
  pub finding_json : Finding → Text

module _ {T : Type 0} (store : ScanStore T) (findings : FindingStore T) (null_json : Text)
    (now : ℕ) where
  abbrev pub finding_change : ℕ → List ℕ → Finding → ChangeEvent
  finding_change asset ids f =
      change_of new_potential_finding asset now null_json (findings.finding_json f) ids

  -- The loop over the findings of an asset. `strict` is whether a change that cannot be stored ends
  -- it with an error, as it does for an import and not for a scan.
  unfoldable pub store_findings : Bool → ℕ → List ℕ → List Finding → T → Bool × T
  store_findings strict asset ids [] t = (true, t)
  store_findings strict asset ids (f ∷ fs) t = elim (findings.upsert_finding f t) [
    | none ↦ (false, t)
    | some (false, u) ↦ store_findings strict asset ids fs u
    | some (true, u) ↦ elim (store.add_change (finding_change asset ids f) u) [
      | some v ↦ store_findings strict asset ids fs v
      | none ↦ if strict then (false, u) else store_findings strict asset ids fs u
    ]
  ]

  -- The loop over the assets.
  unfoldable pub derive_findings : Bool → List ℕ → List ℕ → T → Bool × T
  unfolding store_findings
  derive_findings strict ids [] t = (true, t)
  derive_findings strict ids (a ∷ as') t = elim (findings.evaluate a t) [
    | none ↦ (false, t)
    | some fs ↦
        (let r = store_findings strict a ids fs t in
          elim r.0 [ false ↦ r | true ↦ derive_findings strict ids as' r.1 ])
  ]

  -- PipelineSink.AddObservation, which is a Sink.
  unfoldable pub pipeline_sink : Deriver → Observation → T → Bool × T
  unfolding derive_findings
  pipeline_sink d o t =
      let s = ingest_observations d store now [] (o ∷ []) t in
      if s.1 then (false, s.2) else derive_findings true (o.id ∷ []) s.0.asset_ids s.2
