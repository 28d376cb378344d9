-- ===== src/Rollout/Machine.antt =====
-- internal/domain/rollout/state_machine.go, and the two transition methods of rollout.go.
-- A method on a pointer returns the state it leaves beside its result.
pub mod Edges
pub mod History
pub mod Elapsed
use edge_rollout_control_ser.Base.{
  ℕ, suc, Bool, true, false, not, ◌||◌, ◌&&◌, Option, none, some, List, [], ◌∷◌, ◌++◌, Str, bytes,
  is_empty, ◌==◌, ltb, if◌then◌else◌, any_of, last?, sort_by, str_ltb, str_eq, insert_by, Result,
  ok, err, map,
}
use edge_rollout_control_ser.Base.Int.{ℤ, pos, ◌+ℤ◌, int64}
use edge_rollout_control_ser.Base.Time.{Time, is_zero, or_now, time_sub}
use edge_rollout_control_ser.Rollout.{
  Status, draft, scheduled, running, paused, completed, failed, cancelled, rolled_back,
  rolling_back, status_eq, Rollout, TargetStatus, target_eq, Target, Error, invalid,
}

-- The map `allowedTransitions`; a status that is no key has no successor.
abbrev pub allowed_transitions : Status → List Status
allowed_transitions draft = scheduled ∷ running ∷ cancelled ∷ []
allowed_transitions scheduled = running ∷ cancelled ∷ []
allowed_transitions running = paused ∷ completed ∷ failed ∷ cancelled ∷ rolling_back ∷ []
allowed_transitions paused = running ∷ cancelled ∷ rolling_back ∷ []
allowed_transitions completed = rolling_back ∷ []
allowed_transitions failed = rolling_back ∷ []
allowed_transitions rolling_back = rolled_back ∷ failed ∷ []
allowed_transitions _ = []

unfoldable pub can_transition : Status → Status → Bool
can_transition from to = any_of (λ s. status_eq s to) (allowed_transitions from)

-- The string of a status.
abbrev pub status_name : Status → Str
status_name draft = bytes "draft"
status_name scheduled = bytes "scheduled"
status_name running = bytes "running"
status_name paused = bytes "paused"
status_name completed = bytes "completed"
status_name failed = bytes "failed"
status_name cancelled = bytes "cancelled"
status_name rolled_back = bytes "rolled_back"
status_name rolling_back = bytes "rolling_back"

unfoldable pub allowed_next : Status → List Status
unfolding sort_by insert_by str_ltb
allowed_next from =
    sort_by (λ i j. str_ltb (status_name i) (status_name j)) (allowed_transitions from)

pub record Transition : Type 0 where
  pub from : Status
  pub to : Status
  pub actor : Str
  pub reason : Str
  pub occurred_at : Time

pub data TransitionError : Type 0 where
  rollout_required : TransitionError
  cannot_transition : Status → Status → TransitionError
  actor_required : TransitionError

-- What `ApplyTransition` writes once its guards have passed.
unfoldable pub enter : Rollout → Status → Str → Time → Rollout
enter entity to reason at = record entity {
  status = to;
  updated_at = at;
  started_at = elim entity.started_at [
    | none ↦ if status_eq to running then some at else none
    | some t ↦ some t
  ];
  completed_at =
      if status_eq to completed
        || status_eq to cancelled
        || status_eq to rolled_back
        || status_eq to failed
      then some at
      else entity.completed_at;
  pause_reason =
      if status_eq to paused
      then reason
      else if status_eq to running
      then []
      else entity.pause_reason;
}

-- `wall` is what `time.Now()` returns.
unfoldable pub apply_transition :
    Option Rollout
    → Status
    → Str
    → Str
    → Time
    → Time
    → Option Rollout × Result TransitionError Transition
unfolding enter can_transition
apply_transition none to actor reason at wall = (none, err rollout_required)
apply_transition (some entity) to actor reason at wall =
    if not (can_transition entity.status to)
    then (some entity, err (cannot_transition entity.status to))
    else if is_empty actor
    then (some entity, err actor_required)
    else (
      some (enter entity to reason (or_now at wall)),
      ok (record {
        from = entity.status;
        to = to;
        actor = actor;
        reason = reason;
        occurred_at = or_now at wall;
      }),
    )

pub record TransitionHistory : Type 0 where
  pub rollout_id : Str
  pub transitions : List Transition

-- Errors of a history; a number is the index that the message names.
pub data HistoryError : Type 0 where
  rollout_id_required discontinuous before_previous : HistoryError
  invalid_transition does_not_follow out_of_order : ℕ → HistoryError

unfoldable pub append :
    TransitionHistory → Transition → TransitionHistory × Result HistoryError Unit
append h t =
    if is_empty h.rollout_id then (h, err rollout_id_required) else elim (last? h.transitions) [
      | none ↦ (record h { transitions = h.transitions ++ t ∷ [] }, ok tt)
      | some previous ↦
          if not (status_eq previous.to t.from)
          then (h, err discontinuous)
          else if ltb t.occurred_at previous.occurred_at
          then (h, err before_previous)
          else (record h { transitions = h.transitions ++ t ∷ [] }, ok tt)
    ]

unfoldable pub current : TransitionHistory → Status
current h = elim (last? h.transitions) [ none ↦ draft | some t ↦ t.to ]

-- One round of the loop of `Validate`; `previous` is there from index 1 on.
abbrev pub check_step : ℕ → Option Transition → Transition → Result HistoryError Unit
check_step index none t =
    if not (can_transition t.from t.to) then err (invalid_transition index) else ok tt
check_step index (some previous) t =
    if not (can_transition t.from t.to)
    then err (invalid_transition index)
    else if not (status_eq previous.to t.from)
    then err (does_not_follow index)
    else if ltb t.occurred_at previous.occurred_at
    then err (out_of_order index)
    else ok tt

unfoldable pub validate_from : ℕ → Option Transition → List Transition → Result HistoryError Unit
validate_from index previous [] = ok tt
validate_from index previous (t ∷ ts) =
    let rest = validate_from (suc index) (some t) ts in
    elim (check_step index previous t) [ ok _ ↦ rest | err e ↦ err e ]

unfoldable pub validate : TransitionHistory → Result HistoryError Unit
unfolding validate_from
validate h =
    if is_empty h.rollout_id then err rollout_id_required else validate_from 0 none h.transitions

-- The end of a stay: the next transition, or `until` after the last.
abbrev pub stay_end : Time → List Transition → Time
stay_end until [] = until
stay_end until (next ∷ ts) = next.occurred_at

abbrev pub add_stay : Status → Time → Transition → ℤ → ℤ
add_stay status end t duration =
    if not (status_eq t.to status)
    then duration
    else if ltb t.occurred_at end
    then int64 (duration +ℤ time_sub end t.occurred_at)
    else duration

unfoldable pub time_in_from : Status → Time → List Transition → ℤ → ℤ
time_in_from status until [] duration = duration
time_in_from status until (t ∷ ts) duration =
    time_in_from status until ts (add_stay status (stay_end until ts) t duration)

unfoldable pub time_in : TransitionHistory → Status → Time → Time → ℤ
unfolding time_in_from
time_in h status until wall = time_in_from status (or_now until wall) h.transitions (pos 0)

-- The loop of `Actors`: `seen` is the map, whose keys are the result so far.
unfoldable pub actors_from : List Str → List Transition → List Str
actors_from seen [] = seen
actors_from seen (t ∷ ts) =
    actors_from (if any_of (str_eq t.actor) seen then seen else seen ++ t.actor ∷ []) ts

unfoldable pub actors : TransitionHistory → List Str
unfolding actors_from sort_by insert_by str_ltb
actors h = sort_by str_ltb (actors_from [] h.transitions)

unfoldable pub is_active : Status → Bool
is_active s =
    status_eq s scheduled || status_eq s running || status_eq s paused || status_eq s rolling_back

unfoldable pub is_successful : Status → Bool
is_successful s = status_eq s completed || status_eq s rolled_back

unfoldable pub is_failure : Status → Bool
is_failure s = status_eq s failed || status_eq s cancelled

-- The older table inside the method `Rollout.Transition` of rollout.go.
abbrev pub transition_table : Status → List Status
transition_table draft = scheduled ∷ running ∷ cancelled ∷ []
transition_table scheduled = running ∷ cancelled ∷ []
transition_table running = paused ∷ completed ∷ failed ∷ cancelled ∷ []
transition_table paused = running ∷ cancelled ∷ rolled_back ∷ []
transition_table completed = rolled_back ∷ []
transition_table _ = []

unfoldable pub transition : Rollout → Status → Time → Rollout × Result Error (Unit {0})
transition r next now =
    if not (any_of (λ s. status_eq s next) (transition_table r.status)) then (r, err invalid) else (
      record r {
        status = next;
        updated_at = now;
        started_at = elim r.started_at [
          | none ↦ if status_eq next running then some now else none
          | some t ↦ some t
        ];
        completed_at = if status_eq next completed then some now else r.completed_at;
      },
      ok tt,
    )

abbrev pub allowed_targets : TargetStatus → List TargetStatus
allowed_targets TargetStatus.pending =
    TargetStatus.ready ∷ TargetStatus.failed ∷ TargetStatus.timed_out ∷ []
allowed_targets TargetStatus.ready =
    TargetStatus.delivered ∷ TargetStatus.failed ∷ TargetStatus.timed_out ∷ []
allowed_targets TargetStatus.delivered =
    TargetStatus.succeeded ∷ TargetStatus.failed ∷ TargetStatus.timed_out ∷ []
allowed_targets _ = []

unfoldable pub apply_target_transition :
    Option Target → TargetStatus → Time → Time → Option Target × Result Error (Unit {0})
apply_target_transition none next at wall = (none, err invalid)
apply_target_transition (some entity) next at wall =
    let now = or_now at wall in
    if not (any_of (λ s. target_eq s next) (allowed_targets entity.status))
    then (some entity, err invalid)
    else (
      some (record entity {
        status = next;
        updated_at = now;
        delivered_at =
            if target_eq next TargetStatus.delivered then some now else entity.delivered_at;
        acknowledged_at =
            if target_eq next TargetStatus.succeeded
              || target_eq next TargetStatus.failed
              || target_eq next TargetStatus.timed_out
            then some now
            else entity.acknowledged_at;
      }),
      ok tt,
    )
