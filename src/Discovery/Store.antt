-- ===== src/Discovery/Store.antt =====
-- internal/discovery/scanner.go: ScanStore, the operations of the store that the scanner uses, and
-- the resolver that it is built with. A store that fails leaves its state as it was, but for the
-- resolver, which writes in several steps.
use corta_sentry.Prelude.{ℕ, Bool, Option, List, Text}
use corta_sentry.Assets.Inventory.{Kind, Strength}
use corta_sentry.Records.Observations.{Observation, ObservationQuery}
use corta_sentry.Records.Changes.{ChangeEvent}
use corta_sentry.Fingerprint.Model.{Candidate}

-- The columns of an asset that a classification writes.
pub record Classification : Type 0 where
  pub device_class : Text
  pub vendor : Text
  pub product_family : Text
  pub model : Text
  pub ambiguous : Bool

-- An identifier as the scanner supplies it; its value is a text.
pub record Supplied : Type 0 where
  pub kind : Kind
  pub value : Text
  pub strength : Strength

-- assets.Result, as far as the scanner reads it.
pub record Resolved : Type 0 where
  pub asset_id : ℕ
  pub created : Bool

pub record ScanStore (T : Type 0) : Type 0 where
  pub add_observation : Observation → T → Option (Observation × T)
  pub add_candidate : ℕ → Candidate → T → Option T
  pub add_change : ChangeEvent → T → Option T
  pub list_observations : ObservationQuery → T → Option (List Observation)
  pub update_classification : ℕ → Classification → ℕ → T → Option T
  pub attach_observation : ℕ → Observation → Bool → T → Option T
  pub get_classification : ℕ → T → Option Classification
  pub resolve : Observation → List Supplied → T → Option Resolved × T
