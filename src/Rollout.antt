-- ===== src/Rollout.antt =====
-- internal/domain/rollout/rollout.go: the types, their validation and the status tests.
-- A pointer to a time is an `Option`; a status is one of the declared constants.
pub mod Machine
pub mod Plan
pub mod Progress
use edge_rollout_control_ser.Base.{
  ℕ, Bool, true, false, ◌||◌, Option, none, some, Str, is_empty, ◌==◌, Result, ok, err, ◌>>=◌, ◌>>◌,
  fail_if,
}
use edge_rollout_control_ser.Base.Int.{ℤ, pos, ltb_ℤ}
use edge_rollout_control_ser.Base.Time.{Time}

-- The strategy of a command is any string: `other` is one that is no constant.
pub data Strategy : Type 0 where
  immediate scheduled percentage : Strategy
  other : Str → Strategy

unfoldable pub valid_strategy : Strategy → Bool
valid_strategy immediate = true
valid_strategy scheduled = true
valid_strategy percentage = true
valid_strategy (other s) = false

pub data Status : Type 0 where
  draft scheduled running paused completed failed cancelled rolled_back rolling_back : Status

-- `==` on statuses compares strings, and the constants are distinct.
abbrev pub status_tag : Status → ℕ
status_tag Status.draft = 0
status_tag Status.scheduled = 1
status_tag Status.running = 2
status_tag Status.paused = 3
status_tag Status.completed = 4
status_tag Status.failed = 5
status_tag Status.cancelled = 6
status_tag Status.rolled_back = 7
status_tag Status.rolling_back = 8

abbrev pub status_eq : Status → Status → Bool
status_eq a b = status_tag a == status_tag b

abbrev pub terminal : Status → Bool
terminal s =
    status_eq s Status.completed
    || status_eq s Status.failed
    || status_eq s Status.cancelled
    || status_eq s Status.rolled_back

pub record Rollout : Type 0 where
  pub id : Str
  pub name : Str
  pub configuration_id : Str
  pub group_id : Str
  pub pause_reason : Str
  pub rollback_configuration_id : Str
  pub rule_id : Str
  pub created_by : Str
  pub strategy : Strategy
  pub batch_size : ℤ
  pub batch_percent : ℤ
  pub current_batch : ℕ
  pub target_count : ℤ
  pub success_count : ℕ
  pub failure_count : ℕ
  pub timeout_count : ℕ
  pub scheduled_at : Option Time
  pub status : Status
  pub created_at : Time
  pub updated_at : Time
  pub started_at : Option Time
  pub completed_at : Option Time

pub data TargetStatus : Type 0 where
  pending delivered succeeded failed timed_out ready rollback_pending rolled_back : TargetStatus

abbrev pub target_tag : TargetStatus → ℕ
target_tag TargetStatus.pending = 0
target_tag TargetStatus.delivered = 1
target_tag TargetStatus.succeeded = 2
target_tag TargetStatus.failed = 3
target_tag TargetStatus.timed_out = 4
target_tag TargetStatus.ready = 5
target_tag TargetStatus.rollback_pending = 6
target_tag TargetStatus.rolled_back = 7

abbrev pub target_eq : TargetStatus → TargetStatus → Bool
target_eq a b = target_tag a == target_tag b

pub record Target : Type 0 where
  pub id : Str
  pub rollout_id : Str
  pub device_id : Str
  pub desired_configuration_id : Str
  pub error_code : Str
  pub error_message : Str
  pub batch_number : ℕ
  pub status : TargetStatus
  pub delivered_at : Option Time
  pub acknowledged_at : Option Time
  pub created_at : Time
  pub updated_at : Time

-- `nil` is a pointer argument that is nil, `invalid` is `ErrInvalid`.
pub data Error : Type 0 where
  invalid : Error

unfoldable pub validate : Rollout → Result Error (Unit {0})
validate r =
    fail_if
      (is_empty r.id
        || is_empty r.name
        || is_empty r.configuration_id
        || ltb_ℤ r.target_count (pos 0))
      invalid
