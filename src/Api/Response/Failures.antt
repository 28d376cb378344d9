-- ===== src/Api/Response/Failures.antt =====
-- How the failures of the operations are answered.
use edge_rollout_control_ser.Base.{◌≡◌, ◌≢◌, refl, some, Result, ok, err, arith}
use edge_rollout_control_ser.Base.Floats.{Floats}
use edge_rollout_control_ser.Store.{
  Error, repository_not_found, invalid_entity, invalid_state, validation, invalid_argument,
  not_found, conflict, constraint, database, delivery_failed, panic,
}
use edge_rollout_control_ser.Service.{Env, World, Run}
use edge_rollout_control_ser.Service.Runs.{
  Op, start, cancel, roll_back, pause, reconcile, pull, process, submit, add_device, change_device,
  beat, add_group, add_configuration, publish, deprecate, add_rule, add_subscription, add_rollout,
  error_in, error_of,
}
use edge_rollout_control_ser.Service.Fails.{FailsOther, EndsOther, IsOther}
use edge_rollout_control_ser.Service.Fails.Operations.{
  FailsOther-start_rollout, FailsOther-pause_rollout, FailsOther-cancel_rollout,
  FailsOther-rollback_rollout, FailsOther-reconcile_rollout, FailsOther-process_runnable_rollouts,
}
use edge_rollout_control_ser.Service.Fails.Receiving.{
  FailsOther-pull_pending_configuration, FailsOther-submit_receipt, FailsOther-create_rollout,
}
use edge_rollout_control_ser.Service.Fails.Entries.{
  FailsOther-create_device, FailsOther-change_device, FailsOther-heartbeat, FailsOther-create_group,
  FailsOther-create_configuration, FailsOther-publish_configuration,
  FailsOther-deprecate_configuration, FailsOther-create_rule, FailsOther-create_subscription,
}
use edge_rollout_control_ser.Api.Response.{write_error}

error_in-IsOther :
    {A B : Type 0} (y : Result Error A × B) (x : Error)
    → EndsOther y
    → error_in y ≡ some x
    → IsOther x
error_in-IsOther (ok a, b) x h k = absurd (cc k)
error_in-IsOther (err z, b) x h k = λ same. h (cc (k, same))

module _ {f : Floats} (e : Env) where
  of_ends :
      {A : Type 0} {m : Run f A}
      → FailsOther m
      → (w : World f) (x : Error) → error_in (m w) ≡ some x
      → IsOther x
  of_ends {m = m} p w x h = error_in-IsOther (m w) x (p.ends w) h

  error_of-IsOther : (op : Op f) (w : World f) (x : Error) → error_of f e op w ≡ some x → IsOther x
  unfolding error_of
  error_of-IsOther (start id actor) w x h = of_ends (FailsOther-start_rollout e id actor) w x h
  error_of-IsOther (pause id reason actor) w x h =
      of_ends (FailsOther-pause_rollout e id reason actor) w x h
  error_of-IsOther (cancel id actor) w x h = of_ends (FailsOther-cancel_rollout e id actor) w x h
  error_of-IsOther (roll_back id actor) w x h =
      of_ends (FailsOther-rollback_rollout e id actor) w x h
  error_of-IsOther (reconcile id) w x h = of_ends (FailsOther-reconcile_rollout e id) w x h
  error_of-IsOther (process limit) w x h =
      of_ends (FailsOther-process_runnable_rollouts e limit) w x h
  error_of-IsOther (pull device) w x h =
      of_ends (FailsOther-pull_pending_configuration e device) w x h
  error_of-IsOther (submit device c) w x h = of_ends (FailsOther-submit_receipt e device c) w x h
  error_of-IsOther (add_device c actor) w x h = of_ends (FailsOther-create_device e c actor) w x h
  error_of-IsOther (change_device id c actor) w x h =
      of_ends (FailsOther-change_device e id c actor) w x h
  error_of-IsOther (beat id c) w x h = of_ends (FailsOther-heartbeat e id c) w x h
  error_of-IsOther (add_group c actor) w x h = of_ends (FailsOther-create_group e c actor) w x h
  error_of-IsOther (add_configuration c actor) w x h =
      of_ends (FailsOther-create_configuration e c actor) w x h
  error_of-IsOther (publish id actor) w x h =
      of_ends (FailsOther-publish_configuration e id actor) w x h
  error_of-IsOther (deprecate id actor) w x h =
      of_ends (FailsOther-deprecate_configuration e id actor) w x h
  error_of-IsOther (add_rule visit c actor) w x h =
      of_ends (FailsOther-create_rule e visit c actor) w x h
  error_of-IsOther (add_subscription c actor) w x h =
      of_ends (FailsOther-create_subscription e c actor) w x h
  error_of-IsOther (add_rollout c actor) w x h = of_ends (FailsOther-create_rollout e c actor) w x h

not_404 : (x : Error) → IsOther x → (write_error x).status ≢ 404
unfolding write_error
not_404 not_found h k = h refl
not_404 repository_not_found h k = omega arith
not_404 invalid_entity h k = omega arith
not_404 invalid_state h k = omega arith
not_404 (validation field) h k = omega arith
not_404 invalid_argument h k = omega arith
not_404 conflict h k = omega arith
not_404 constraint h k = omega arith
not_404 database h k = omega arith
not_404 delivery_failed h k = omega arith
not_404 panic h k = omega arith

-- No error of an operation of the service that changes its tables is answered 404, whatever the tables
-- hold and whichever calls of the database fail.
pub write_error-error_of :
    (f : Floats) (e : Env) (op : Op f) (w : World f) (x : Error)
    → error_of f e op w ≡ some x
    → (write_error x).status ≢ 404
write_error-error_of f e op w x h = not_404 x (error_of-IsOther e op w x h)
