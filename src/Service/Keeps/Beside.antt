-- ===== src/Service/Keeps/Beside.antt =====
-- The operations on devices, groups, rules, subscriptions and configurations keep what does not look
-- at the tables that they write.
use edge_rollout_control_ser.Base.{
  Option, none, some, List, Str, Result, ok, err, trim_space, Result-cases, inl, inr, arith,
}
use edge_rollout_control_ser.Base.Floats.{Floats}
use edge_rollout_control_ser.Store.{Store}
use edge_rollout_control_ser.Device.{Device, Group}
use edge_rollout_control_ser.Rollout.{Target}
use edge_rollout_control_ser.Receipt.{Receipt}
use edge_rollout_control_ser.Device
use edge_rollout_control_ser.Configuration.{Configuration}
use edge_rollout_control_ser.Configuration
use edge_rollout_control_ser.Rule.{Rule}
use edge_rollout_control_ser.Webhook.{Subscription}
use edge_rollout_control_ser.Store.Rows
use edge_rollout_control_ser.Store.Creation
use edge_rollout_control_ser.Base.Time.{Time}
use edge_rollout_control_ser.Service.{Env, execute}
use edge_rollout_control_ser.Service.Fleet
use edge_rollout_control_ser.Service.Catalog
use edge_rollout_control_ser.Service.Triples.{IsAside}
use edge_rollout_control_ser.Service.Keeps.{Keeps, keeping, Keeps-table, Keeps-pure, Keeps-fail}

-- What looks at no tables but those of the rollouts and the configurations.
pub record IsBeside {f : Floats} (I : Store f → Type 0) : Type 0 where
  pub aside : IsAside I
  pub devices : (s : Store f) (x : List Device) → I s → I (record s { devices = x })
  pub groups : (s : Store f) (x : List Group) → I s → I (record s { groups = x })
  pub rules : (s : Store f) (x : List (Rule f)) → I s → I (record s { rules = x })
  pub subscriptions :
      (s : Store f) (x : List Subscription) → I s → I (record s { subscriptions = x })
  pub targets : (s : Store f) (x : List Target) → I s → I (record s { targets = x })
  pub receipts : (s : Store f) (x : List Receipt) → I s → I (record s { receipts = x })

module _ {f : Floats} {I : Store f → Type 0} (b : IsBeside I) (e : Env) where
  Keeps-insert_device : (d : Device) → Keeps I (execute f e (λ s. Creation.create_device f s d))
  unfolding Creation.create_device
  Keeps-insert_device d =
      Keeps-table e _ (λ s. s.devices) (λ s x. record s { devices = x }) b.devices
        (λ s t h. ground arith)

  pub Keeps-change_device : (d : Device) → Keeps I (execute f e (λ s. Rows.update_device f s d))
  unfolding Rows.update_device
  Keeps-change_device d =
      Keeps-table e _ (λ s. s.devices) (λ s x. record s { devices = x }) b.devices
        (λ s t h. ground arith)

  Keeps-insert_group : (g : Group) → Keeps I (execute f e (λ s. Creation.create_group f s g))
  unfolding Creation.create_group
  Keeps-insert_group g =
      Keeps-table e _ (λ s. s.groups) (λ s x. record s { groups = x }) b.groups
        (λ s t h. ground arith)

  Keeps-insert_rule : (r : Rule f) → Keeps I (execute f e (λ s. Creation.create_rule f s r))
  unfolding Creation.create_rule
  Keeps-insert_rule r =
      Keeps-table e _ (λ s. s.rules) (λ s x. record s { rules = x }) b.rules (λ s t h. ground arith)

  Keeps-insert_subscription :
      (x : Subscription) → Keeps I (execute f e (λ s. Creation.create_subscription f s x))
  unfolding Creation.create_subscription
  Keeps-insert_subscription x =
      Keeps-table e _ (λ s. s.subscriptions) (λ s x. record s { subscriptions = x }) b.subscriptions
        (λ s t h. ground arith)

  Keeps-changed_text :
      (o : Option Str) (field old : Str) → Keeps I (Fleet.changed_text f e o field old)
  Keeps-changed_text none field old = Keeps-pure old
  Keeps-changed_text (some value) field old = search keeping

  pub Keeps-check :
      {X A : Type 0} (r : Result X A) (field : Str) → Keeps {f = f} I (Catalog.check r field)
  Keeps-check (ok a) field = Keeps-pure tt
  Keeps-check (err x) field = Keeps-fail _

  Keeps-refuse_rate : (o : Option (Str × f.Float)) → Keeps I (Catalog.refuse_rate f o)
  Keeps-refuse_rate none = Keeps-pure tt
  Keeps-refuse_rate (some (field, value)) = Keeps-fail _

  pub Keeps-create_device :
      (c : Fleet.CreateDeviceCommand) (actor : Str) → Keeps I (Fleet.create_device f e c actor)
  unfolding Fleet.create_device
  Keeps-create_device c actor = search (keeping, b.aside, Keeps-insert_device) depth 30

  pub Keeps-update_device :
      (id : Str) (c : Fleet.UpdateDeviceCommand) (actor : Str)
      → Keeps I (Fleet.update_device f e id c actor)
  unfolding Fleet.update_device
  Keeps-update_device id c actor =
      search (keeping, b.aside, Keeps-change_device, Keeps-changed_text) depth 30

  pub Keeps-heartbeat : (id : Str) (c : Fleet.HeartbeatCommand) → Keeps I (Fleet.heartbeat f e id c)
  unfolding Fleet.heartbeat
  Keeps-heartbeat id c = search (keeping, Keeps-change_device) depth 30

  pub Keeps-create_group :
      (c : Fleet.CreateGroupCommand) (actor : Str) → Keeps I (Fleet.create_group f e c actor)
  unfolding Fleet.create_group
  Keeps-create_group c actor = elim (Result-cases (Device.parse_selector (trim_space c.selector))) [
    | inl (term, good) ↦
        rw (good, Fleet.create_group) (search (keeping, b.aside, Keeps-insert_group) depth 30)
    | inr (x, bad) ↦ rw (bad, Fleet.create_group) (search keeping depth 30)
  ]

  pub Keeps-create_rule :
      (visit : List (Str × f.Float) → List (Str × f.Float)) (c : Catalog.CreateRuleCommand f)
      (actor : Str)
      → Keeps I (Catalog.create_rule f e visit c actor)
  unfolding Catalog.create_rule
  Keeps-create_rule visit c actor =
      search (keeping, b.aside, Keeps-insert_rule, Keeps-refuse_rate) depth 30

  pub Keeps-create_subscription :
      (c : Catalog.CreateSubscriptionCommand) (actor : Str)
      → Keeps I (Catalog.create_subscription f e c actor)
  unfolding Catalog.create_subscription
  Keeps-create_subscription c actor =
      search (keeping, b.aside, Keeps-insert_subscription, Keeps-check) depth 30

  -- Those that write the table of configurations.
  module _
      (configurations : (s : Store f) (x : List Configuration)
        → I s
        → I (record s { configurations = x })) where
    Keeps-insert_configuration :
        (c : Configuration) → Keeps I (execute f e (λ s. Creation.create_configuration f s c))
    unfolding Creation.create_configuration
    Keeps-insert_configuration c =
        Keeps-table e _ (λ s. s.configurations) (λ s x. record s { configurations = x })
          configurations (λ s t h. ground arith)

    Keeps-change_status :
        (id : Str) (status : Configuration.Status) (at : Time)
        → Keeps I (execute f e (λ s. Creation.update_configuration_status f s id status at))
    unfolding Creation.update_configuration_status
    Keeps-change_status id status at =
        Keeps-table e _ (λ s. s.configurations) (λ s x. record s { configurations = x })
          configurations (λ s t h. ground arith)

    pub Keeps-create_configuration :
        (c : Catalog.CreateConfigurationCommand) (actor : Str)
        → Keeps I (Catalog.create_configuration f e c actor)
    unfolding Catalog.create_configuration
    Keeps-create_configuration c actor =
        search (keeping, b.aside, Keeps-insert_configuration, Keeps-check) depth 40

    pub Keeps-publish_configuration :
        (id actor : Str) → Keeps I (Catalog.publish_configuration f e id actor)
    unfolding Catalog.publish_configuration
    Keeps-publish_configuration id actor = search (keeping, b.aside, Keeps-change_status) depth 30

    pub Keeps-deprecate_configuration :
        (id actor : Str) → Keeps I (Catalog.deprecate_configuration f e id actor)
    unfolding Catalog.deprecate_configuration
    Keeps-deprecate_configuration id actor = search (keeping, b.aside, Keeps-change_status) depth 30
