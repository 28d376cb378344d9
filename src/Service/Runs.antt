-- ===== src/Service/Runs.antt =====
-- Sequences of operations of the service: each one runs to its end before the next,
-- and the errors that they return.
use edge_rollout_control_ser.Base.{
  ◌≡◌, refl, Option, none, some, List, [], ◌∷◌, Str, Result, ok, err,
}
use edge_rollout_control_ser.Base.Int.{ℤ}
use edge_rollout_control_ser.Base.Floats.{Floats}
use edge_rollout_control_ser.Store.{Error}
use edge_rollout_control_ser.Service.{Env, World}
use edge_rollout_control_ser.Service.Steps.{
  start_rollout, pause_rollout, cancel_rollout, rollback_rollout,
}
use edge_rollout_control_ser.Service.Reconcile.{reconcile_rollout, process_runnable_rollouts}
use edge_rollout_control_ser.Service.Fleet.{
  CreateDeviceCommand, UpdateDeviceCommand, HeartbeatCommand, CreateGroupCommand, create_device,
  update_device, heartbeat, create_group,
}
use edge_rollout_control_ser.Service.Catalog.{
  CreateConfigurationCommand, CreateRuleCommand, CreateSubscriptionCommand, create_configuration,
  publish_configuration, deprecate_configuration, create_rule, create_subscription,
}
use edge_rollout_control_ser.Service.Creation.{CreateRolloutCommand, create_rollout}
use edge_rollout_control_ser.Service.Reports.{
  SubmitReceiptCommand, pull_pending_configuration, submit_receipt,
}

pub data Op (f : Floats) : Type 0 where
  start cancel roll_back : Str → Str → Op f
  pause : Str → Str → Str → Op f
  reconcile pull : Str → Op f
  process : ℤ → Op f
  submit : Str → SubmitReceiptCommand → Op f
  add_device : CreateDeviceCommand → Str → Op f
  change_device : Str → UpdateDeviceCommand → Str → Op f
  beat : Str → HeartbeatCommand → Op f
  add_group : CreateGroupCommand → Str → Op f
  add_configuration : CreateConfigurationCommand → Str → Op f
  publish deprecate : Str → Str → Op f
  add_rule : (List (Str × f.Float) → List (Str × f.Float)) → CreateRuleCommand f → Str → Op f
  add_subscription : CreateSubscriptionCommand → Str → Op f
  add_rollout : CreateRolloutCommand → Str → Op f

abbrev pub error_in : {A B : Type 0} → Result Error A × B → Option Error
error_in (ok a, b) = none
error_in (err x, b) = some x

module _ (f : Floats) (e : Env) where
  -- The world after an operation, whatever it returns.
  unfoldable pub run_op : Op f → World f → World f
  run_op (start id actor) w = (start_rollout f e id actor w).1
  run_op (pause id reason actor) w = (pause_rollout f e id reason actor w).1
  run_op (cancel id actor) w = (cancel_rollout f e id actor w).1
  run_op (roll_back id actor) w = (rollback_rollout f e id actor w).1
  run_op (reconcile id) w = (reconcile_rollout f e id w).1
  run_op (process limit) w = (process_runnable_rollouts f e limit w).1
  run_op (pull device) w = (pull_pending_configuration f e device w).1
  run_op (submit device c) w = (submit_receipt f e device c w).1
  run_op (add_device c actor) w = (create_device f e c actor w).1
  run_op (change_device id c actor) w = (update_device f e id c actor w).1
  run_op (beat id c) w = (heartbeat f e id c w).1
  run_op (add_group c actor) w = (create_group f e c actor w).1
  run_op (add_configuration c actor) w = (create_configuration f e c actor w).1
  run_op (publish id actor) w = (publish_configuration f e id actor w).1
  run_op (deprecate id actor) w = (deprecate_configuration f e id actor w).1
  run_op (add_rule visit c actor) w = (create_rule f e visit c actor w).1
  run_op (add_subscription c actor) w = (create_subscription f e c actor w).1
  run_op (add_rollout c actor) w = (create_rollout f e c actor w).1

  -- The error that an operation returns, if any.
  unfoldable pub error_of : Op f → World f → Option Error
  error_of (start id actor) w = error_in (start_rollout f e id actor w)
  error_of (pause id reason actor) w = error_in (pause_rollout f e id reason actor w)
  error_of (cancel id actor) w = error_in (cancel_rollout f e id actor w)
  error_of (roll_back id actor) w = error_in (rollback_rollout f e id actor w)
  error_of (reconcile id) w = error_in (reconcile_rollout f e id w)
  error_of (process limit) w = error_in (process_runnable_rollouts f e limit w)
  error_of (pull device) w = error_in (pull_pending_configuration f e device w)
  error_of (submit device c) w = error_in (submit_receipt f e device c w)
  error_of (add_device c actor) w = error_in (create_device f e c actor w)
  error_of (change_device id c actor) w = error_in (update_device f e id c actor w)
  error_of (beat id c) w = error_in (heartbeat f e id c w)
  error_of (add_group c actor) w = error_in (create_group f e c actor w)
  error_of (add_configuration c actor) w = error_in (create_configuration f e c actor w)
  error_of (publish id actor) w = error_in (publish_configuration f e id actor w)
  error_of (deprecate id actor) w = error_in (deprecate_configuration f e id actor w)
  error_of (add_rule visit c actor) w = error_in (create_rule f e visit c actor w)
  error_of (add_subscription c actor) w = error_in (create_subscription f e c actor w)
  error_of (add_rollout c actor) w = error_in (create_rollout f e c actor w)

  unfoldable pub run_all : List (Op f) → World f → World f
  run_all [] w = w
  run_all (op ∷ ops) w = run_all ops (run_op op w)

-- Each operation in turn leads from one state to the next by R.
abbrev pub Trace :
    {f : Floats} {A : Type 0} → (Op f → A → A → Type 0) → List (Op f) → A → A → Type 0
Trace R [] a b = a ≡ b
Trace {A = A} R (op ∷ ops) a b = (m : A) × R op a m × Trace R ops m b

-- What every operation does from every world holds of the runs.
pub run_all-Trace :
    {A : Type 0} (f : Floats) (e : Env) (R : Op f → A → A → Type 0) (view : World f → A)
    → ((op : Op f) (w : World f) → R op (view w) (view (run_op f e op w)))
    → (ops : List (Op f)) (w : World f) → Trace R ops (view w) (view (run_all f e ops w))
unfolding run_all
run_all-Trace f e R view each [] w = refl
run_all-Trace f e R view each (op ∷ ops) w =
    (view (run_op f e op w), each op w, run_all-Trace f e R view each ops (run_op f e op w))
