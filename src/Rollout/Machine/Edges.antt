-- ===== src/Rollout/Machine/Edges.antt =====
-- The state machines of a rollout and of a target, and the two tables of rollouts.
use edge_rollout_control_ser.Base.{
  ℕ, ◌<◌, ◌≡◌, ◌≢◌, ◌↔◌, ◌⊎◌, Bool, true, false, Option, none, some, [], Str, any_of, arith, ok,
  err,
}
use edge_rollout_control_ser.Base.Time.{Time}
use edge_rollout_control_ser.Rollout.{
  Status, draft, scheduled, running, paused, completed, failed, cancelled, rolled_back,
  rolling_back, status_eq, Rollout, TargetStatus, Target,
}
use edge_rollout_control_ser.Rollout.Machine.{
  can_transition, transition_table, cannot_transition, apply_transition, apply_target_transition,
}

-- Whether a status comes after the start, and whether it ends a rollout.
abbrev pub has_started : Status → Bool
has_started draft = false
has_started scheduled = false
has_started cancelled = false
has_started _ = true

abbrev pub has_ended : Status → Bool
has_ended completed = true
has_ended failed = true
has_ended cancelled = true
has_ended rolled_back = true
has_ended _ = false

-- The times and the reason of a rollout fit its status.
pub record IsConsistent (r : Rollout) : Type 0 where
  pub started : has_started r.status ≡ true → r.started_at ≢ none
  pub ended : has_ended r.status ≡ true → r.completed_at ≢ none
  pub resumed : r.status ≡ running → r.pause_reason ≡ []

abbrev pub AllOption : {A : Type 0} → (A → Type 0) → Option A → Type 0
AllOption P none = Unit {0}
AllOption P (some a) = P a

-- Whatever `ApplyTransition` is asked, an accepted or a refused request keeps a consistent
-- rollout consistent.
pub apply_transition-IsConsistent :
    (r : Rollout) (to : Status) (actor reason : Str) (at wall : Time)
    → IsConsistent r
    → AllOption IsConsistent (apply_transition (some r) to actor reason at wall).0
unfolding apply_transition
apply_transition-IsConsistent r to actor reason at wall h = ground arith

-- A cancelled or rolled back rollout stays as it is: every request is refused.
pub apply_transition_absorbs :
    (r : Rollout) (to : Status) (actor reason : Str) (at wall : Time)
    → (r.status ≡ cancelled) ⊎ (r.status ≡ rolled_back)
    → apply_transition (some r) to actor reason at wall
      ≡ (some r, err (cannot_transition r.status to))
unfolding apply_transition
apply_transition_absorbs r to actor reason at wall h = ground arith

-- Where the table inside `Rollout.Transition` differs from `allowedTransitions`: rolling back.
abbrev pub disputed : Status → Status → Bool
disputed running rolling_back = true
disputed paused rolling_back = true
disputed paused rolled_back = true
disputed completed rolling_back = true
disputed completed rolled_back = true
disputed failed rolling_back = true
disputed rolling_back rolled_back = true
disputed rolling_back failed = true
disputed _ _ = false

-- `Rollout.Transition` and `CanTransition` allow the same transitions, apart from eight between
-- statuses of a rollback, on each of which they differ.
pub tables_agree :
    (a b : Status)
    → (any_of (λ s. status_eq s b) (transition_table a) ≡ can_transition a b)
      ↔ (disputed a b ≡ false)
unfolding can_transition
tables_agree a b = ground arith

-- How far a target has come.
abbrev pub stage : TargetStatus → ℕ
stage TargetStatus.pending = 0
stage TargetStatus.ready = 1
stage TargetStatus.delivered = 2
stage _ = 3

pub record IsTargetConsistent (t : Target) : Type 0 where
  pub delivered : t.status ≡ TargetStatus.delivered → t.delivered_at ≢ none
  pub acknowledged :
      (t.status ≡ TargetStatus.succeeded)
        ⊎ (t.status ≡ TargetStatus.failed)
        ⊎ (t.status ≡ TargetStatus.timed_out)
      → t.acknowledged_at ≢ none

abbrev pub status_of : Target → Option Target → TargetStatus
status_of t none = t.status
status_of t (some u) = u.status

-- An accepted transition of a target moves it to a later stage.
pub apply_target_transition-stage :
    (t : Target) (next : TargetStatus) (at wall : Time)
    → (apply_target_transition (some t) next at wall).1 ≡ ok tt
    → stage t.status < stage (status_of t (apply_target_transition (some t) next at wall).0)
unfolding apply_target_transition
apply_target_transition-stage t next at wall h = ground arith
