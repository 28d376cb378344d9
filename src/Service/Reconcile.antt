-- ===== src/Service/Reconcile.antt =====
-- internal/application/service.go: the reconciliation of a rollout, and the rounds of the scheduler.
use edge_rollout_control_ser.Base.{
  ℕ, suc, ◌+◌, Bool, not, ◌||◌, Option, none, some, List, [], ◌∷◌, Str, bytes, is_empty, ltb, ◌==◌,
  if◌then◌else◌, Result, ok, err,
}
use edge_rollout_control_ser.Base.Int.{ℤ, pos, ltb_ℤ}
use edge_rollout_control_ser.Base.Time.{Time}
use edge_rollout_control_ser.Base.Floats.{Floats}
use edge_rollout_control_ser.Rollout
use edge_rollout_control_ser.Rollout.{Rollout, Target, TargetStatus, target_eq, status_eq}
use edge_rollout_control_ser.Rule
use edge_rollout_control_ser.Rule.{Rule, reason_name}
use edge_rollout_control_ser.Audit.{text, number}
use edge_rollout_control_ser.Store.{Error}
use edge_rollout_control_ser.Store.Rows.{
  get_rollout, update_rollout, list_runnable_rollouts, get_rule,
}
use edge_rollout_control_ser.Store.Targets.{count_target_states}
use edge_rollout_control_ser.Service.{
  Env, Run, of_rollout, pure, attempt, ◌>>=◌, ◌>>◌, now, query, execute, audit, emit,
}
use edge_rollout_control_ser.Service.Steps.{activate_batch, start_rollout}

-- The sums of `ReconcileRollout` over a map of counts.
abbrev pub total_of : (TargetStatus → ℕ) → ℕ
total_of c =
    c TargetStatus.pending
    + c TargetStatus.ready
    + c TargetStatus.delivered
    + c TargetStatus.succeeded
    + c TargetStatus.failed
    + c TargetStatus.timed_out
    + c TargetStatus.rollback_pending
    + c TargetStatus.rolled_back

abbrev pub terminal_of : (TargetStatus → ℕ) → ℕ
terminal_of c =
    c TargetStatus.succeeded
    + c TargetStatus.failed
    + c TargetStatus.timed_out
    + c TargetStatus.rolled_back

abbrev pub with_counts : Rollout → (TargetStatus → ℕ) → Rollout
with_counts r c = record r {
  success_count = c TargetStatus.succeeded;
  failure_count = c TargetStatus.failed;
  timeout_count = c TargetStatus.timed_out;
}

-- The counts of the whole rollout, or those of the batch where they cannot be read.
abbrev pub counted : Rollout → (TargetStatus → ℕ) → Result Error (TargetStatus → ℕ) → Rollout
counted r batch (ok all) = with_counts r all
counted r batch (err x) = with_counts r batch

-- The reason for a pause, if the rule asks for one.
abbrev pub pause_reason : {f : Floats} → Rollout → Result Error (Rule f) → Option Str
pause_reason r (err x) = none
pause_reason {f} r (ok rule) =
    if not rule.enabled
    then none
    else elim (Rule.evaluate f rule (pos r.failure_count)
        (pos (r.success_count + r.failure_count + r.timeout_count)) (pos r.timeout_count)
        r.target_count) [
          | err x ↦ none
          | ok (pause, why) ↦ if pause then some (reason_name why) else none
        ]

module _ (f : Floats) (e : Env) where
  unfoldable pub decide_pause : Rollout → Run f (Option Str)
  decide_pause r =
      if is_empty r.rule_id
      then pure none
      else (do rule ← attempt (query f e λ s. get_rule f s r.rule_id); pure (pause_reason r rule))

  abbrev pub auto_paused : Rollout → Str → Time → Rollout
  auto_paused r reason at = record r {
    status = Rollout.Status.paused;
    pause_reason = reason;
    updated_at = at;
  }

  unfoldable pub auto_pause : Rollout → Str → Run f (Unit {0})
  auto_pause r reason = do
    at ← now f e
    done ← attempt (execute f e λ s. update_rollout f s (auto_paused r reason at))
    audit f e (bytes "system") (bytes "rollout.auto_paused") (bytes "rollout") r.id
        ((bytes "reason", text reason) ∷ [])
    emit f e (bytes "rollout.auto_paused") r.id (of_rollout (auto_paused r reason at))

  abbrev pub touched : Rollout → Time → Rollout
  touched r at = record r { updated_at = at }

  abbrev pub finished : Rollout → Rollout.Status → Time → Rollout
  finished r status at = record r { status = status; completed_at = some at; updated_at = at }

  unfoldable pub wait_for_batch : Rollout → Run f (Unit {0})
  wait_for_batch r = do at ← now f e; execute f e λ s. update_rollout f s (touched r at)

  unfoldable pub finish_rollback : Rollout → Run f (Unit {0})
  finish_rollback r = do
    at ← now f e
    execute f e λ s. update_rollout f s (finished r Rollout.Status.rolled_back at)

  abbrev pub advanced : Rollout → Time → Rollout
  advanced r at = record r { current_batch = suc r.current_batch; updated_at = at }

  unfoldable pub next_batch : Rollout → Run f (Unit {0})
  next_batch r = do
    at ← now f e
    activate_batch f e r.id (suc r.current_batch)
    execute f e λ s. update_rollout f s (advanced r at)

  unfoldable pub complete : Rollout → Run f (Unit {0})
  complete r = do
    at ← now f e
    execute f e λ s. update_rollout f s (finished r Rollout.Status.completed at)
    audit f e (bytes "system") (bytes "rollout.completed") (bytes "rollout") r.id (
        (bytes "success", number (pos r.success_count))
        ∷ (bytes "failed", number (pos r.failure_count))
        ∷ [])
    emit f e (bytes "rollout.completed") r.id (of_rollout (finished r Rollout.Status.completed at))

  -- What follows once no rule asks for a pause; `total` and `done` are the counts of the batch.
  unfoldable pub settle : Rollout → ℕ → ℕ → Run f (Unit {0})
  settle r total done =
      if total == 0 || ltb done total
      then wait_for_batch r
      else if status_eq r.status Rollout.Status.rolling_back
      then finish_rollback r
      else if ltb_ℤ (pos r.current_batch) (e.ceiling r.target_count r.batch_size)
      then next_batch r
      else complete r

  abbrev pub pause_or_settle : Rollout → ℕ → ℕ → Option Str → Run f (Unit {0})
  pause_or_settle r total done (some reason) = auto_pause r reason
  pause_or_settle r total done none = settle r total done

  abbrev pub is_open : Rollout → Bool
  is_open r =
      status_eq r.status Rollout.Status.running || status_eq r.status Rollout.Status.rolling_back

  unfoldable pub reconcile_open : Str → Rollout → Run f (Unit {0})
  reconcile_open id entity = do
    batch ← query f e λ s. ok (count_target_states f s id entity.current_batch)
    all ← attempt (query f e λ s. ok (count_target_states f s id 0))
    reason ← decide_pause (counted entity batch all)
    pause_or_settle (counted entity batch all) (total_of batch) (terminal_of batch) reason

  unfoldable pub reconcile_rollout : Str → Run f (Unit {0})
  reconcile_rollout id = do
    entity ← query f e λ s. get_rollout f s id
    if not (is_open entity) then pure tt else reconcile_open id entity

  -- The loop of `ProcessRunnableRollouts`, whose errors are logged.
  unfoldable pub process_all : List Rollout → Run f (Unit {0})
  process_all [] = pure tt
  process_all (r ∷ rs) = do
    done ← attempt (
        if status_eq r.status Rollout.Status.draft
        then (start_rollout f e r.id (bytes "scheduler") >>= λ _. pure tt)
        else reconcile_rollout r.id)
    process_all rs

  unfoldable pub process_runnable_rollouts : ℤ → Run f (Unit {0})
  process_runnable_rollouts limit = do
    at ← now f e
    items ← query f e λ s. ok (list_runnable_rollouts f s at limit)
    process_all items
