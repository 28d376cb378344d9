-- ===== src/Service/Fails/Statements.antt =====
-- The statements fail with the errors of the repository, never with `ErrNotFound` of the application.
use edge_rollout_control_ser.Base.{Str, arith}
use edge_rollout_control_ser.Base.Floats.{Floats}
use edge_rollout_control_ser.Base.Time.{Time}
use edge_rollout_control_ser.Rollout.{Rollout, Target}
use edge_rollout_control_ser.Device.{Device, Group}
use edge_rollout_control_ser.Configuration
use edge_rollout_control_ser.Configuration.{Configuration}
use edge_rollout_control_ser.Rule.{Rule}
use edge_rollout_control_ser.Receipt.{Receipt}
use edge_rollout_control_ser.Webhook.{Subscription}
use edge_rollout_control_ser.Store.Rows
use edge_rollout_control_ser.Store.Targets.{update_target, get_target}
use edge_rollout_control_ser.Store.Receipts.{create_receipt}
use edge_rollout_control_ser.Store.Creation
use edge_rollout_control_ser.Store.Listings
use edge_rollout_control_ser.Service.{Env, query, execute, execute_for}
use edge_rollout_control_ser.Service.Fails.{
  FailsOther, FailsOther-query, FailsOther-execute, FailsOther-execute_for,
}

module _ {f : Floats} (e : Env) where
  pub FailsOther-get_rollout : (id : Str) → FailsOther (query f e (λ s. Rows.get_rollout f s id))
  unfolding Rows.get_rollout
  FailsOther-get_rollout id = FailsOther-query e _ (λ s x h. ground arith)

  pub FailsOther-get_device : (id : Str) → FailsOther (query f e (λ s. Rows.get_device f s id))
  unfolding Rows.get_device
  FailsOther-get_device id = FailsOther-query e _ (λ s x h. ground arith)

  pub FailsOther-get_configuration :
      (id : Str) → FailsOther (query f e (λ s. Rows.get_configuration f s id))
  unfolding Rows.get_configuration
  FailsOther-get_configuration id = FailsOther-query e _ (λ s x h. ground arith)

  pub FailsOther-get_target :
      (rollout device : Str) → FailsOther (query f e (λ s. get_target f s rollout device))
  unfolding get_target
  FailsOther-get_target rollout device = FailsOther-query e _ (λ s x h. ground arith)

  pub FailsOther-resolve_group :
      (id : Str) → FailsOther (query f e (λ s. Listings.resolve_group f e.like s id))
  unfolding Listings.resolve_group Creation.get_group
  FailsOther-resolve_group id = FailsOther-query e _ (λ s x h. ground arith)

  pub FailsOther-update_rollout :
      (r : Rollout) → FailsOther (execute f e (λ s. Rows.update_rollout f s r))
  unfolding Rows.update_rollout
  FailsOther-update_rollout r = FailsOther-execute e _ (λ s x h. ground arith)

  pub FailsOther-update_device :
      (d : Device) → FailsOther (execute f e (λ s. Rows.update_device f s d))
  unfolding Rows.update_device
  FailsOther-update_device d = FailsOther-execute e _ (λ s x h. ground arith)

  pub FailsOther-update_target : (t : Target) → FailsOther (execute f e (λ s. update_target f s t))
  unfolding update_target
  FailsOther-update_target t = FailsOther-execute e _ (λ s x h. ground arith)

  pub FailsOther-create_receipt :
      (r : Receipt) → FailsOther (execute_for f e (λ s. create_receipt f s r))
  unfolding create_receipt
  FailsOther-create_receipt r = FailsOther-execute_for e _ (λ s x h. ground arith)

  pub FailsOther-insert_device :
      (d : Device) → FailsOther (execute f e (λ s. Creation.create_device f s d))
  unfolding Creation.create_device
  FailsOther-insert_device d = FailsOther-execute e _ (λ s x h. ground arith)

  pub FailsOther-insert_group :
      (g : Group) → FailsOther (execute f e (λ s. Creation.create_group f s g))
  unfolding Creation.create_group
  FailsOther-insert_group g = FailsOther-execute e _ (λ s x h. ground arith)

  pub FailsOther-insert_configuration :
      (c : Configuration) → FailsOther (execute f e (λ s. Creation.create_configuration f s c))
  unfolding Creation.create_configuration
  FailsOther-insert_configuration c = FailsOther-execute e _ (λ s x h. ground arith)

  pub FailsOther-change_status :
      (id : Str) (status : Configuration.Status) (at : Time)
      → FailsOther (execute f e (λ s. Creation.update_configuration_status f s id status at))
  unfolding Creation.update_configuration_status
  FailsOther-change_status id status at = FailsOther-execute e _ (λ s x h. ground arith)

  pub FailsOther-insert_rule :
      (r : Rule f) → FailsOther (execute f e (λ s. Creation.create_rule f s r))
  unfolding Creation.create_rule
  FailsOther-insert_rule r = FailsOther-execute e _ (λ s x h. ground arith)

  pub FailsOther-insert_subscription :
      (x : Subscription) → FailsOther (execute f e (λ s. Creation.create_subscription f s x))
  unfolding Creation.create_subscription
  FailsOther-insert_subscription x = FailsOther-execute e _ (λ s y h. ground arith)

  pub FailsOther-insert_rollout :
      (r : Rollout) → FailsOther (execute f e (λ s. Creation.insert_rollout f s r))
  unfolding Creation.insert_rollout
  FailsOther-insert_rollout r = FailsOther-execute e _ (λ s x h. ground arith)

  pub FailsOther-insert_target :
      (t : Target) → FailsOther (execute f e (λ s. Creation.insert_target f s t))
  unfolding Creation.insert_target
  FailsOther-insert_target t = FailsOther-execute e _ (λ s x h. ground arith)
