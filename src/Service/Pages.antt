-- ===== src/Service/Pages.antt =====
-- internal/application/service.go: the calls that list things page by page, and those that only read.
pub mod Filters
pub mod Orders
pub mod Laws
use edge_rollout_control_ser.Base.{ℕ, Bool, List, Str, if◌then◌else◌, Result, ok}
use edge_rollout_control_ser.Base.Int.{ℤ, pos, ltb_ℤ, leb_ℤ}
use edge_rollout_control_ser.Base.Floats.{Floats}
use edge_rollout_control_ser.Rollout.{Rollout, Target}
use edge_rollout_control_ser.Device.{Device, Group}
use edge_rollout_control_ser.Configuration.{Configuration}
use edge_rollout_control_ser.Rule.{Rule}
use edge_rollout_control_ser.Receipt.{Receipt}
use edge_rollout_control_ser.Audit
use edge_rollout_control_ser.Webhook.{Subscription, Delivery}
use edge_rollout_control_ser.Store.Rows
use edge_rollout_control_ser.Store.Rows.{RolloutFilter}
use edge_rollout_control_ser.Store.Targets
use edge_rollout_control_ser.Store.Targets.{TargetFilter}
use edge_rollout_control_ser.Store.Listings
use edge_rollout_control_ser.Store.Listings.{
  DeviceFilter, ConfigurationFilter, RuleFilter, ReceiptFilter, AuditFilter, SubscriptionFilter,
  DeliveryFilter,
}
use edge_rollout_control_ser.Service.{Env, Run, query}

-- The two parts of `normalizePage`.
unfoldable pub normal_limit : ℤ → ℤ
normal_limit limit =
    let asked = if leb_ℤ limit (pos 0) then pos 50 else limit in
    if ltb_ℤ (pos 1000) asked then pos 1000 else asked

unfoldable pub normal_offset : ℤ → ℤ
normal_offset offset = if ltb_ℤ offset (pos 0) then pos 0 else offset

module _ (f : Floats) (e : Env) where
  unfoldable pub list_devices : DeviceFilter → Run f (List Device × ℕ)
  unfolding normal_limit normal_offset
  list_devices q = query f e λ s. ok (
      Listings.list_devices f e.like s
        (record q { limit = normal_limit q.limit; offset = normal_offset q.offset }))

  unfoldable pub list_groups : ℤ → ℤ → Run f (List Group × ℕ)
  unfolding normal_limit normal_offset
  list_groups limit offset =
      query f e λ s. ok (Listings.list_groups f s (normal_limit limit) (normal_offset offset))

  unfoldable pub list_configurations : ConfigurationFilter → Run f (List Configuration × ℕ)
  unfolding normal_limit normal_offset
  list_configurations q = query f e λ s. ok (
      Listings.list_configurations f e.like s
        (record q { limit = normal_limit q.limit; offset = normal_offset q.offset }))

  unfoldable pub list_rules : RuleFilter → Run f (List (Rule f) × ℕ)
  unfolding normal_limit normal_offset
  list_rules q = query f e λ s. ok (
      Listings.list_rules f s
        (record q { limit = normal_limit q.limit; offset = normal_offset q.offset }))

  unfoldable pub list_rollouts : RolloutFilter → Run f (List Rollout × ℕ)
  unfolding normal_limit normal_offset
  list_rollouts q = query f e λ s. ok (
      Rows.list_rollouts f s
        (record q { limit = normal_limit q.limit; offset = normal_offset q.offset }))

  unfoldable pub list_targets : Str → TargetFilter → Run f (List Target × ℕ)
  unfolding normal_limit normal_offset
  list_targets id q = query f e λ s. ok (
      Targets.list_targets f s id
        (record q { limit = normal_limit q.limit; offset = normal_offset q.offset }))

  unfoldable pub list_receipts : ReceiptFilter → Run f (List Receipt × ℕ)
  unfolding normal_limit normal_offset
  list_receipts q = query f e λ s. ok (
      Listings.list_receipts f s
        (record q { limit = normal_limit q.limit; offset = normal_offset q.offset }))

  unfoldable pub list_audit : AuditFilter → Run f (List Audit.Event × ℕ)
  unfolding normal_limit normal_offset
  list_audit q = query f e λ s. ok (
      Listings.list_audit f s
        (record q { limit = normal_limit q.limit; offset = normal_offset q.offset }))

  unfoldable pub list_subscriptions : SubscriptionFilter → Run f (List Subscription × ℕ)
  unfolding normal_limit normal_offset
  list_subscriptions q = query f e λ s. ok (
      Listings.list_subscriptions f s
        (record q { limit = normal_limit q.limit; offset = normal_offset q.offset }))

  unfoldable pub list_deliveries : DeliveryFilter → Run f (List Delivery × ℕ)
  unfolding normal_limit normal_offset
  list_deliveries q = query f e λ s.
      Listings.list_deliveries f s
        (record q { limit = normal_limit q.limit; offset = normal_offset q.offset })

  unfoldable pub get_device : Str → Run f Device
  get_device id = query f e λ s. Rows.get_device f s id

  unfoldable pub get_configuration : Str → Run f Configuration
  get_configuration id = query f e λ s. Rows.get_configuration f s id

  unfoldable pub get_rollout : Str → Run f Rollout
  get_rollout id = query f e λ s. Rows.get_rollout f s id
