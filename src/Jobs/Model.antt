-- ===== src/Jobs/Model.antt =====
-- internal/domain/models.go and internal/storage/sqlite/store.go: jobs, and the table that holds
-- them.
use corta_sentry.Prelude.{
  ℕ, ◌+◌, Bool, true, false, ◌&&◌, Option, none, some, List, [], ◌∷◌, Text, ◌==◌, if◌then◌else◌,
}

pub data JobType : Type 0 where
  discovery target_probe rule_reevaluation asset_resolution advisory_correlation job_import
        change_evaluation :
      JobType

-- Job.State; `unset` is the empty text.
pub data JobState : Type 0 where
  unset queued running completed failed cancelled : JobState

-- A row of the jobs table. NULL is `none`; the empty idempotency key is 0.
pub record Job : Type 0 where
  pub id : ℕ
  pub type : JobType
  pub state : JobState
  pub payload : Text
  pub attempt_count : ℕ
  pub lease_owner : Option ℕ
  pub lease_expires_at : Option ℕ
  pub created_at : ℕ
  pub started_at : Option ℕ
  pub completed_at : Option ℕ
  pub cancel_requested : Bool
  pub error_summary : Text
  pub progress_current : ℕ
  pub progress_total : ℕ
  pub idempotency_key : ℕ

abbrev pub Table : Type 0
Table = List Job

pub data StoreError : Type 0 where
  queue_full no_rows lease_lost invalid_terminal_state : StoreError

abbrev pub is_active : JobState → Bool
is_active queued = true
is_active running = true
is_active _ = false

abbrev pub is_terminal : JobState → Bool
is_terminal completed = true
is_terminal failed = true
is_terminal cancelled = true
is_terminal _ = false

abbrev pub is_queued : JobState → Bool
is_queued queued = true
is_queued _ = false

abbrev pub is_running : JobState → Bool
is_running running = true
is_running _ = false

abbrev pub type_code : JobType → ℕ
type_code discovery = 0
type_code target_probe = 1
type_code rule_reevaluation = 2
type_code asset_resolution = 3
type_code advisory_correlation = 4
type_code job_import = 5
type_code change_evaluation = 6

-- SELECT ... WHERE p LIMIT 1
unfoldable pub find : (Job → Bool) → Table → Option Job
find p [] = none
find p (r ∷ t) = if p r then some r else find p t

-- UPDATE jobs SET ... WHERE p
unfoldable pub update : (Job → Bool) → (Job → Job) → Table → Table
update p f [] = []
update p f (r ∷ t) = (if p r then f r else r) ∷ update p f t

-- SELECT count(*) FROM jobs WHERE state IN ('queued','running')
unfoldable pub active_count : Table → ℕ
active_count [] = 0
active_count (r ∷ t) = (if is_active r.state then 1 else 0) + active_count t

abbrev pub has_id : ℕ → Job → Bool
has_id i r = r.id == i

abbrev pub has_key : JobType → ℕ → Job → Bool
has_key ty key r = type_code r.type == type_code ty && r.idempotency_key == key

-- What the caller of CreateJobBounded supplies, and what it reads back.
pub record NewJob : Type 0 where
  pub type : JobType
  pub payload : Text
  pub progress_total : ℕ
  pub idempotency_key : ℕ
