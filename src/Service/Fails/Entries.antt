-- ===== src/Service/Fails/Entries.antt =====
-- The calls on devices, groups, configurations, rules and subscriptions fail with other errors only.
use edge_rollout_control_ser.Base.{
  Option, none, some, List, Str, trim_space, Result, ok, err, Result-cases, inl, inr,
}
use edge_rollout_control_ser.Base.Floats.{Floats}
use edge_rollout_control_ser.Device
use edge_rollout_control_ser.Device.{Device}
use edge_rollout_control_ser.Service.{Env}
use edge_rollout_control_ser.Service.Fleet
use edge_rollout_control_ser.Service.Catalog
use edge_rollout_control_ser.Service.Fails.{
  FailsOther, failing, FailsOther-pure, FailsOther-fail, validation-IsOther,
}
use edge_rollout_control_ser.Service.Fails.Statements.{
  FailsOther-get_device, FailsOther-get_configuration, FailsOther-update_device,
  FailsOther-insert_device, FailsOther-insert_group, FailsOther-insert_configuration,
  FailsOther-change_status, FailsOther-insert_rule, FailsOther-insert_subscription,
}

module _ {f : Floats} (e : Env) where
  FailsOther-changed_text :
      (o : Option Str) (field old : Str) → FailsOther (Fleet.changed_text f e o field old)
  FailsOther-changed_text none field old = FailsOther-pure old
  FailsOther-changed_text (some value) field old = search failing

  FailsOther-check :
      {X A : Type 0} (r : Result X A) (field : Str) → FailsOther {f = f} (Catalog.check r field)
  FailsOther-check (ok a) field = FailsOther-pure tt
  FailsOther-check (err x) field = FailsOther-fail _ (validation-IsOther field)

  FailsOther-refuse_rate : (o : Option (Str × f.Float)) → FailsOther (Catalog.refuse_rate f o)
  FailsOther-refuse_rate none = FailsOther-pure tt
  FailsOther-refuse_rate (some (field, value)) = FailsOther-fail _ (validation-IsOther field)

  pub FailsOther-create_device :
      (c : Fleet.CreateDeviceCommand) (actor : Str) → FailsOther (Fleet.create_device f e c actor)
  unfolding Fleet.create_device
  FailsOther-create_device c actor = search (failing, FailsOther-insert_device) depth 30

  pub FailsOther-change_device :
      (id : Str) (c : Fleet.UpdateDeviceCommand) (actor : Str)
      → FailsOther (Fleet.update_device f e id c actor)
  unfolding Fleet.update_device
  FailsOther-change_device id c actor =
      search (failing, FailsOther-get_device, FailsOther-update_device, FailsOther-changed_text)
        depth 30

  pub FailsOther-heartbeat :
      (id : Str) (c : Fleet.HeartbeatCommand) → FailsOther (Fleet.heartbeat f e id c)
  unfolding Fleet.heartbeat
  FailsOther-heartbeat id c =
      search (failing, FailsOther-get_device, FailsOther-update_device) depth 30

  pub FailsOther-create_group :
      (c : Fleet.CreateGroupCommand) (actor : Str) → FailsOther (Fleet.create_group f e c actor)
  unfolding Fleet.create_group
  FailsOther-create_group c actor =
      elim (Result-cases (Device.parse_selector (trim_space c.selector))) [
        | inl (term, good) ↦
            rw (good, Fleet.create_group) (search (failing, FailsOther-insert_group) depth 30)
        | inr (x, bad) ↦ rw (bad, Fleet.create_group) (search (failing, FailsOther-fail) depth 30)
      ]

  pub FailsOther-create_configuration :
      (c : Catalog.CreateConfigurationCommand) (actor : Str)
      → FailsOther (Catalog.create_configuration f e c actor)
  unfolding Catalog.create_configuration
  FailsOther-create_configuration c actor =
      search (failing, FailsOther-insert_configuration, FailsOther-check) depth 40

  pub FailsOther-publish_configuration :
      (id actor : Str) → FailsOther (Catalog.publish_configuration f e id actor)
  unfolding Catalog.publish_configuration
  FailsOther-publish_configuration id actor =
      search (failing, FailsOther-get_configuration, FailsOther-change_status) depth 30

  pub FailsOther-deprecate_configuration :
      (id actor : Str) → FailsOther (Catalog.deprecate_configuration f e id actor)
  unfolding Catalog.deprecate_configuration
  FailsOther-deprecate_configuration id actor =
      search (failing, FailsOther-get_configuration, FailsOther-change_status) depth 30

  pub FailsOther-create_rule :
      (visit : List (Str × f.Float) → List (Str × f.Float)) (c : Catalog.CreateRuleCommand f)
      (actor : Str)
      → FailsOther (Catalog.create_rule f e visit c actor)
  unfolding Catalog.create_rule
  FailsOther-create_rule visit c actor =
      search (failing, FailsOther-insert_rule, FailsOther-refuse_rate) depth 30

  pub FailsOther-create_subscription :
      (c : Catalog.CreateSubscriptionCommand) (actor : Str)
      → FailsOther (Catalog.create_subscription f e c actor)
  unfolding Catalog.create_subscription
  FailsOther-create_subscription c actor =
      search (failing, FailsOther-insert_subscription, FailsOther-check) depth 30
