-- ===== src/Examples/Machines.antt =====
-- A rollout that runs, is paused and goes on, its history and its targets.
use edge_rollout_control_ser.Base.{
  ℕ, ◌+◌, ◌≤◌, ◌≡◌, ◌≢◌, ◌⊎◌, inl, refl, true, false, not, Option, none, some, List, [], ◌∷◌, Str,
  bytes, arith, ok, err, last?, subst,
}
use edge_rollout_control_ser.Base.Int.{pos, pos_part}
use edge_rollout_control_ser.Base.Time.{Time}
use edge_rollout_control_ser.Rollout.{
  Status, draft, running, paused, cancelled, Rollout, Strategy, Target, TargetStatus,
}
use edge_rollout_control_ser.Rollout.Machine.{
  Transition, TransitionHistory, append, current, validate, can_transition, apply_transition,
  apply_target_transition, cannot_transition, before_previous, time_in,
}
use edge_rollout_control_ser.Rollout.Machine.Edges.{
  IsConsistent, AllOption, apply_transition-IsConsistent, apply_transition_absorbs,
}
use edge_rollout_control_ser.Rollout.Machine.History.{Follows, apply_transition-append}
use edge_rollout_control_ser.Rollout.Machine.Elapsed.{over_statuses, time_in_total}
use edge_rollout_control_ser.Rollout.Progress.{is_scheduled, is_runnable, group_targets_by_batch}
use edge_rollout_control_ser.Rollout.Progress.Counters.{scheduled_or_runnable}
use edge_rollout_control_ser.Rollout.Progress.Groups.{group_at}

abbrev rollout : Status → Option Time → Rollout
rollout s started = record {
  id = bytes "r";
  name = bytes "spring";
  configuration_id = bytes "c";
  group_id = bytes "g";
  pause_reason = [];
  rollback_configuration_id = [];
  rule_id = [];
  created_by = bytes "ann";
  strategy = Strategy.immediate;
  batch_size = pos 2;
  batch_percent = pos 0;
  current_batch = 0;
  target_count = pos 3;
  success_count = 0;
  failure_count = 0;
  timeout_count = 0;
  scheduled_at = none;
  status = s;
  created_at = 1;
  updated_at = 1;
  started_at = started;
  completed_at = none;
}

abbrev move : Status → Status → Time → Transition
move from to at = record {
  from = from;
  to = to;
  actor = bytes "ann";
  reason = [];
  occurred_at = at;
}

abbrev history : List Transition → TransitionHistory
history ts = record { rollout_id = bytes "r"; transitions = ts }

abbrev started : Rollout
started = record (rollout running (some 5)) { updated_at = 5 }

starts :
    apply_transition (some (rollout draft none)) running (bytes "ann") [] 5 9
    ≡ (some started, ok (move draft running 5))
unfolding apply_transition
starts = refl

new-IsConsistent : IsConsistent (rollout draft none)
new-IsConsistent = record {
  started = λ e. absurd (cc);
  ended = λ e. absurd (cc);
  resumed = λ e. refl;
}

apply_transition-IsConsistent_example :
    AllOption IsConsistent
      (apply_transition (some (rollout draft none)) running (bytes "ann") [] 5 9).0
apply_transition-IsConsistent_example =
    apply_transition-IsConsistent (rollout draft none) running (bytes "ann") [] 5 9 new-IsConsistent

apply_transition_absorbs_example :
    apply_transition (some (rollout cancelled none)) running (bytes "ann") [] 5 9
    ≡ (some (rollout cancelled none), err (cannot_transition cancelled running))
apply_transition_absorbs_example =
    apply_transition_absorbs (rollout cancelled none) running (bytes "ann") [] 5 9 (inl refl)

nothing_yet : Follows (rollout draft none) (history [])
unfolding validate current
nothing_yet = record { valid = refl; at_status = refl }

apply_transition-append_example :
    (((append (history []) (move draft running 5)).1 ≡ ok tt)
      × Follows started (append (history []) (move draft running 5)).0)
    ⊎ ((append (history []) (move draft running 5)).1 ≡ err before_previous)
apply_transition-append_example =
    apply_transition-append (rollout draft none) started (history []) running (bytes "ann") [] 5 9
      (move draft running 5) nothing_yet starts

one-valid : validate (history (move draft running 5 ∷ [])) ≡ ok tt
unfolding validate can_transition
one-valid = refl

can_pause : can_transition running paused ≡ true
unfolding can_transition
can_pause = refl

pauses : (append (history (move draft running 5 ∷ [])) (move running paused 8)).1 ≡ ok tt
unfolding append
pauses = refl

two-valid : validate (history (move draft running 5 ∷ move running paused 8 ∷ [])) ≡ ok tt
unfolding validate can_transition
two-valid = refl

last_two :
    (l : Transition)
    → last? (move draft running 5 ∷ move running paused 8 ∷ []) ≡ some l
    → l.occurred_at ≤ 20
last_two l e =
    subst (λ (o : Option Transition). (elim o [ none ↦ Unit {0} | some t ↦ t.occurred_at ≤ 20 ])) e
      (omega arith)

time_in_total_example :
    let h = history (move draft running 5 ∷ move running paused 8 ∷ []) in
    over_statuses (λ s. pos_part (time_in h s 20 30)) + 5 ≡ 20
time_in_total_example =
    time_in_total (bytes "r") (move draft running 5) (move running paused 8 ∷ []) 20 30 two-valid
      last_two (omega arith) (omega arith)

abbrev target : Str → ℕ → TargetStatus → Target
target device n s = record {
  id = device;
  rollout_id = bytes "r";
  device_id = device;
  desired_configuration_id = bytes "c";
  error_code = [];
  error_message = [];
  batch_number = n;
  status = s;
  delivered_at = none;
  acknowledged_at = none;
  created_at = 1;
  updated_at = 1;
}

accepted :
    (apply_target_transition
      (some (target (bytes "d") 1 TargetStatus.pending))
      TargetStatus.ready
      5
      9).1
    ≡ ok tt
unfolding apply_target_transition
accepted = refl

scheduled_or_runnable_example :
    ((draft ≡ draft)
      → is_runnable (rollout draft none) 7 ≡ not (is_scheduled (rollout draft none) 7))
    × ((draft ≡ running)
        → (is_runnable (rollout draft none) 7 ≡ true)
          × (is_scheduled (rollout draft none) 7 ≡ false))
    × ((draft ≢ draft)
        → (draft ≢ running)
        → (is_runnable (rollout draft none) 7 ≡ false)
          × (is_scheduled (rollout draft none) 7 ≡ false))
scheduled_or_runnable_example = scheduled_or_runnable (rollout draft none) 7

abbrev targets : List Target
targets =
    target (bytes "b") 1 TargetStatus.ready
    ∷ target (bytes "c") 2 TargetStatus.pending
    ∷ target (bytes "a") 1 TargetStatus.ready
    ∷ []

first_batch :
    group_at 1 (group_targets_by_batch targets)
    ≡ target (bytes "a") 1 TargetStatus.ready ∷ target (bytes "b") 1 TargetStatus.ready ∷ []
unfolding group_targets_by_batch
first_batch = refl
