-- ===== src/Service/Steps.antt =====
-- internal/application/service.go: starting, pausing, cancelling and rolling back a rollout.
use edge_rollout_control_ser.Base.{
  ℕ, Bool, not, ◌||◌, none, some, List, [], ◌∷◌, Str, bytes, is_empty, trim_space, if◌then◌else◌,
  ok,
}
use edge_rollout_control_ser.Base.Int.{pos}
use edge_rollout_control_ser.Base.Time.{Time}
use edge_rollout_control_ser.Base.Floats.{Floats}
use edge_rollout_control_ser.Rollout
use edge_rollout_control_ser.Rollout.{Rollout, Target, TargetStatus, target_eq, status_eq, terminal}
use edge_rollout_control_ser.Audit.{Detail, text, number}
use edge_rollout_control_ser.Store.{invalid_state, validation}
use edge_rollout_control_ser.Store.Rows.{get_rollout, update_rollout}
use edge_rollout_control_ser.Store.Targets.{list_targets, update_target}
use edge_rollout_control_ser.Service.{
  Env, Run, of_rollout, pure, refuse, ◌>>=◌, ◌>>◌, now, query, execute, fallback, audit, emit,
}

module _ (f : Floats) (e : Env) where
  -- The loop of `activateBatch`.
  unfoldable pub activate_all : Time → List Target → Run f (Unit {0})
  activate_all at [] = pure tt
  activate_all at (t ∷ ts) =
      let rest = activate_all at ts in
      if not (target_eq t.status TargetStatus.pending)
      then rest
      else (execute f e
            (λ s. update_target f s (record t { status = TargetStatus.ready; updated_at = at }))
          >> rest)

  unfoldable pub activate_batch : Str → ℕ → Run f (Unit {0})
  activate_batch id batch = do
    targets ← query f e λ s.
        ok
          (list_targets f s id
            (record { status = none; batch_number = batch; limit = pos 10000; offset = pos 0 })).0
    at ← now f e
    activate_all at targets

  abbrev pub started : Rollout → Time → Rollout
  started r at =
      let first =
        if status_eq r.status Rollout.Status.draft
        then record r { started_at = some at; current_batch = 1 }
        else r in
      record first { status = Rollout.Status.running; pause_reason = []; updated_at = at }

  abbrev pub announce : Str → Str → List (Str × Detail) → Rollout → Run f Rollout
  announce actor action details r = do
    audit f e actor action (bytes "rollout") r.id details
    emit f e action r.id (of_rollout r)
    pure r

  unfoldable pub start_rollout : Str → Str → Run f Rollout
  start_rollout id actor = do
    entity ← query f e λ s. get_rollout f s id
    refuse
        (not (
          status_eq entity.status Rollout.Status.draft
          || status_eq entity.status Rollout.Status.paused))
        invalid_state
    at ← now f e
    activate_batch (started entity at).id (started entity at).current_batch
    execute f e λ s. update_rollout f s (started entity at)
    announce actor (bytes "rollout.started")
        ((bytes "batch", number (pos (started entity at).current_batch)) ∷ []) (started entity at)

  abbrev pub paused : Rollout → Str → Time → Rollout
  paused r reason at = record r {
    status = Rollout.Status.paused;
    pause_reason = fallback f e (trim_space reason) (bytes "paused by operator");
    updated_at = at;
  }

  unfoldable pub pause_rollout : Str → Str → Str → Run f Rollout
  pause_rollout id reason actor = do
    entity ← query f e λ s. get_rollout f s id
    refuse (not (status_eq entity.status Rollout.Status.running)) invalid_state
    at ← now f e
    execute f e λ s. update_rollout f s (paused entity reason at)
    announce actor (bytes "rollout.paused")
        ((bytes "reason", text (paused entity reason at).pause_reason) ∷ [])
        (paused entity reason at)

  abbrev pub cancelled : Rollout → Time → Rollout
  cancelled r at = record r { status = Rollout.Status.cancelled; updated_at = at }

  unfoldable pub cancel_rollout : Str → Str → Run f Rollout
  cancel_rollout id actor = do
    entity ← query f e λ s. get_rollout f s id
    refuse (terminal entity.status) invalid_state
    at ← now f e
    execute f e λ s. update_rollout f s (cancelled entity at)
    announce actor (bytes "rollout.cancelled") [] (cancelled entity at)

  -- The loop of `RollbackRollout`.
  unfoldable pub roll_back_all : Str → Time → List Target → Run f (Unit {0})
  roll_back_all configuration at [] = pure tt
  roll_back_all configuration at (t ∷ ts) =
      let rest = roll_back_all configuration at ts in
      if target_eq t.status TargetStatus.succeeded || target_eq t.status TargetStatus.failed
      then (execute f e (λ s. update_target f s (record t {
        status = TargetStatus.rollback_pending;
        desired_configuration_id = configuration;
        updated_at = at;
      }))
          >> rest)
      else rest

  abbrev pub can_roll_back : Rollout → Bool
  can_roll_back r =
      status_eq r.status Rollout.Status.paused
      || status_eq r.status Rollout.Status.failed
      || status_eq r.status Rollout.Status.completed

  abbrev pub rolling_back : Rollout → Time → Rollout
  rolling_back r at = record r { status = Rollout.Status.rolling_back; updated_at = at }

  unfoldable pub rollback_rollout : Str → Str → Run f Rollout
  rollback_rollout id actor = do
    entity ← query f e λ s. get_rollout f s id
    refuse (is_empty entity.rollback_configuration_id)
        (validation (bytes "rollback_configuration_id"))
    refuse (not (can_roll_back entity)) invalid_state
    at ← now f e
    targets ← query f e λ s.
        ok
          (list_targets f s entity.id
            (record { status = none; batch_number = 0; limit = pos 10000; offset = pos 0 })).0
    roll_back_all entity.rollback_configuration_id at targets
    execute f e λ s. update_rollout f s (rolling_back entity at)
    announce actor (bytes "rollout.rollback_started")
        ((bytes "configuration_id", text entity.rollback_configuration_id) ∷ [])
        (rolling_back entity at)
