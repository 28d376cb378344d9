-- ===== src/Service/Reports.antt =====
-- internal/application/service.go: what devices ask and report.
use edge_rollout_control_ser.Base.{
  Bool, true, false, not, ◌||◌, ◌&&◌, Option, none, some, List, [], ◌∷◌, Str, bytes, is_empty,
  str_eq, if◌then◌else◌, Result, ok, err,
}
use edge_rollout_control_ser.Base.Int.{pos}
use edge_rollout_control_ser.Base.Time.{Time}
use edge_rollout_control_ser.Base.Floats.{Floats}
use edge_rollout_control_ser.Rollout
use edge_rollout_control_ser.Rollout.{Rollout, Target, TargetStatus, target_eq, status_eq}
use edge_rollout_control_ser.Device.{Device}
use edge_rollout_control_ser.Configuration.{Configuration}
use edge_rollout_control_ser.Receipt
use edge_rollout_control_ser.Receipt.{Receipt}
use edge_rollout_control_ser.Audit.{text}
use edge_rollout_control_ser.Store.{Error, not_found, conflict, validation}
use edge_rollout_control_ser.Store.Rows.{
  list_rollouts, get_device, update_device, get_configuration,
}
use edge_rollout_control_ser.Store.Targets.{get_target, update_target}
use edge_rollout_control_ser.Store.Receipts.{create_receipt}
use edge_rollout_control_ser.Service.{
  Env, Run, of_receipt, pure, fail, refuse, attempt, ◌>>=◌, ◌>>◌, now, new_id, query, execute,
  execute_for, audit, emit,
}
use edge_rollout_control_ser.Service.Reconcile.{reconcile_rollout}

pub record PendingConfiguration : Type 0 where
  pub rollout : Rollout
  pub target : Target
  pub configuration : Configuration

pub record SubmitReceiptCommand : Type 0 where
  pub idempotency_key : Str
  pub rollout_id : Str
  pub configuration_id : Str
  pub status : Receipt.Status
  pub error_code : Str
  pub message : Str
  pub device_timestamp : Option Time

module _ (f : Floats) (e : Env) where
  abbrev pub deliverable : Target → Bool
  deliverable t =
      target_eq t.status TargetStatus.ready || target_eq t.status TargetStatus.rollback_pending

  abbrev pub delivered : Target → Time → Target
  delivered t at = record t {
    status = TargetStatus.delivered;
    delivered_at = some at;
    updated_at = at;
  }

  unfoldable pub deliver : Rollout → Target → Run f (Option PendingConfiguration)
  deliver r t = do
    c ← query f e λ s. get_configuration f s t.desired_configuration_id
    at ← now f e
    execute f e λ s. update_target f s (delivered t at)
    pure (some (record { rollout = r; target = delivered t at; configuration = c }))

  -- `errors.Is(err, ErrNotFound)`, for the `ErrNotFound` of the application.
  abbrev pub pull_one :
      Rollout
      → Run f (Option PendingConfiguration)
      → Result Error Target
      → Run f (Option PendingConfiguration)
  pull_one r rest (err not_found) = rest
  pull_one r rest (err x) = fail x
  pull_one r rest (ok t) = if not (deliverable t) then rest else deliver r t

  -- The loop of `PullPendingConfiguration`.
  unfoldable pub pull_from : Str → List Rollout → Run f (Option PendingConfiguration)
  pull_from device [] = pure none
  pull_from device (r ∷ rs) =
      let rest = pull_from device rs in
      attempt (query f e λ s. get_target f s r.id device) >>= pull_one r rest

  unfoldable pub pull_pending_configuration : Str → Run f (Option PendingConfiguration)
  pull_pending_configuration device = do
    d ← query f e λ s. get_device f s device
    items ← query f e λ s.
        ok
          (list_rollouts f s (record {
            status = some Rollout.Status.running;
            configuration_id = [];
            group_id = [];
            limit = pos 200;
            offset = pos 0;
          })).0
    pull_from device items

  abbrev pub receipt_of : Str → SubmitReceiptCommand → Str → Time → Receipt
  receipt_of device c id at = record {
    id = id;
    idempotency_key = c.idempotency_key;
    rollout_id = c.rollout_id;
    device_id = device;
    configuration_id = c.configuration_id;
    error_code = c.error_code;
    message = c.message;
    status = c.status;
    device_timestamp = c.device_timestamp;
    received_at = at;
  }

  abbrev pub has_succeeded : SubmitReceiptCommand → Bool
  has_succeeded c = Receipt.status_eq c.status Receipt.Status.succeeded

  abbrev pub acknowledged : Target → SubmitReceiptCommand → Time → Target
  acknowledged t c at = record t {
    status = if has_succeeded c then TargetStatus.succeeded else TargetStatus.failed;
    acknowledged_at = some at;
    error_code = c.error_code;
    error_message = c.message;
    updated_at = at;
  }

  abbrev pub set_current : SubmitReceiptCommand → Time → Result Error Device → Run f (Unit {0})
  set_current c at (err x) = pure tt
  set_current c at (ok d) = do
    done ← attempt (
        execute f e λ s.
          update_device f s
            (record d { current_configuration_id = c.configuration_id; updated_at = at }))
    pure tt

  unfoldable pub note_configuration : Str → SubmitReceiptCommand → Time → Run f (Unit {0})
  note_configuration device c at =
      if has_succeeded c
      then (attempt (query f e λ s. get_device f s device) >>= set_current c at)
      else pure tt

  -- What `SubmitReceipt` does with a receipt that is new.
  unfoldable pub accept_receipt :
      Str → SubmitReceiptCommand → Target → Receipt → Time → Run f (Receipt × Bool)
  accept_receipt device c t entity at = do
    execute f e λ s. update_target f s (acknowledged t c at)
    note_configuration device c at
    audit f e device (bytes "receipt.accepted") (bytes "rollout") c.rollout_id (
        (bytes "status", text (Receipt.status_name c.status))
        ∷ (bytes "device_id", text device)
        ∷ [])
    emit f e (bytes "receipt.accepted") c.rollout_id (of_receipt entity)
    done ← attempt (reconcile_rollout f e c.rollout_id)
    pure (entity, true)

  unfoldable pub submit_receipt : Str → SubmitReceiptCommand → Run f (Receipt × Bool)
  submit_receipt device c = do
    refuse (is_empty c.idempotency_key || is_empty c.rollout_id || is_empty c.configuration_id)
        (validation [])
    refuse (not (has_succeeded c) && not (Receipt.status_eq c.status Receipt.Status.failed))
        (validation (bytes "status"))
    t ← query f e λ s. get_target f s c.rollout_id device
    refuse (not (str_eq t.desired_configuration_id c.configuration_id)) conflict
    at ← now f e
    id ← new_id f e
    created ← execute_for f e λ s. create_receipt f s (receipt_of device c id at)
    if not created
        then pure (receipt_of device c id at, false)
        else accept_receipt device c t (receipt_of device c id at) at
