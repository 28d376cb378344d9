-- ===== src/Store/Creation.antt =====
-- The statements that insert rows, and those that change a configuration, a rule or a subscription.
-- A row is refused where it repeats a primary key or a `UNIQUE` column of the schema.
use edge_rollout_control_ser.Base.{
  Bool, ◌||◌, ◌&&◌, none, some, [], ◌∷◌, ◌++◌, Str, str_eq, any_of, if◌then◌else◌, Result, ok, err,
}
use edge_rollout_control_ser.Base.Int.{eq_ℤ}
use edge_rollout_control_ser.Base.Time.{Time}
use edge_rollout_control_ser.Base.Floats.{Floats}
use edge_rollout_control_ser.Rollout.{Rollout, Target}
use edge_rollout_control_ser.Device
use edge_rollout_control_ser.Device.{Device, Group}
use edge_rollout_control_ser.Configuration
use edge_rollout_control_ser.Configuration.{Configuration}
use edge_rollout_control_ser.Rule.{Rule}
use edge_rollout_control_ser.Webhook.{Subscription}
use edge_rollout_control_ser.Store.{
  Error, repository_not_found, constraint, invalid_entity, Store, stored, row, update_rows,
}
use edge_rollout_control_ser.Store.Rows.{has_row}

-- `UNIQUE(name,version)`
abbrev pub same_version : Configuration → Configuration → Bool
same_version c o = str_eq o.name c.name && eq_ℤ o.version c.version

-- `UNIQUE(rollout_id,device_id)`
abbrev pub same_device : Target → Target → Bool
same_device t o = str_eq o.rollout_id t.rollout_id && str_eq o.device_id t.device_id

abbrev pub with_status : Configuration.Status → Time → Configuration → Configuration
with_status status at c = record c { status = status; updated_at = at }

module _ (f : Floats) where
  unfoldable pub create_device : Store f → Device → Result Error (Store f)
  unfolding has_row str_eq
  create_device s d = elim (Device.validate d) [
    | err e ↦ err invalid_entity
    | ok u ↦
        if has_row (λ (o : Device). o.id) d.id s.devices
          || any_of (λ (o : Device). str_eq o.name d.name) s.devices
        then err constraint
        else ok (record s { devices = s.devices ++ d ∷ [] })
  ]

  unfoldable pub create_group : Store f → Group → Result Error (Store f)
  unfolding has_row str_eq
  create_group s g = elim (Device.validate_group g) [
    | err e ↦ err invalid_entity
    | ok u ↦
        if has_row (λ (o : Group). o.id) g.id s.groups
          || any_of (λ (o : Group). str_eq o.name g.name) s.groups
        then err constraint
        else ok (record s { groups = s.groups ++ g ∷ [] })
  ]

  -- `GetGroup` scans the creation and update times into nothing.
  unfoldable pub get_group : Store f → Str → Result Error Group
  unfolding row
  get_group s id = elim (row (λ (g : Group). g.id) id s.groups) [
    | none ↦ err repository_not_found
    | some g ↦ ok (record g { created_at = 0; updated_at = 0 })
  ]

  unfoldable pub create_configuration : Store f → Configuration → Result Error (Store f)
  unfolding has_row str_eq
  create_configuration s c = elim (Configuration.validate c) [
    | err e ↦ err invalid_entity
    | ok u ↦
        if has_row (λ (o : Configuration). o.id) c.id s.configurations
          || any_of (same_version c) s.configurations
        then err constraint
        else ok (record s { configurations = s.configurations ++ c ∷ [] })
  ]

  unfoldable pub update_configuration_status :
      Store f → Str → Configuration.Status → Time → Result Error (Store f)
  unfolding has_row update_rows
  update_configuration_status s id status at =
      if has_row (λ (o : Configuration). o.id) id s.configurations
      then ok (record s {
        configurations =
            update_rows (λ (o : Configuration). o.id) (with_status status at) id s.configurations;
      })
      else err repository_not_found

  unfoldable pub create_rule : Store f → Rule f → Result Error (Store f)
  unfolding has_row str_eq
  create_rule s r =
      if has_row (λ (o : Rule f). o.id) r.id s.rules
        || any_of (λ (o : Rule f). str_eq o.name r.name) s.rules
      then err constraint
      else ok (record s { rules = s.rules ++ r ∷ [] })

  -- The columns that `UpdateRule` sets.
  abbrev pub write_rule : Rule f → Rule f → Rule f
  write_rule r old = record old {
    enabled = r.enabled;
    max_failure_rate = r.max_failure_rate;
    max_offline_rate = r.max_offline_rate;
    max_timeout_rate = r.max_timeout_rate;
    critical_labels = r.critical_labels;
    updated_at = r.updated_at;
  }

  -- A missing row is no error.
  unfoldable pub update_rule : Store f → Rule f → Result Error (Store f)
  unfolding update_rows
  update_rule s r =
      ok (record s { rules = update_rows (λ (o : Rule f). o.id) (write_rule r) r.id s.rules })

  -- The two statements of the transaction of `CreateRollout`.
  unfoldable pub insert_rollout : Store f → Rollout → Result Error (Store f)
  unfolding has_row
  insert_rollout s r =
      if has_row (λ (o : Rollout). o.id) r.id s.rollouts
      then err constraint
      else ok (record s {
        rollouts =
            s.rollouts
            ++ record r {
              scheduled_at = stored r.scheduled_at;
              started_at = stored r.started_at;
              completed_at = stored r.completed_at;
            }
              ∷ [];
      })

  unfoldable pub insert_target : Store f → Target → Result Error (Store f)
  unfolding has_row str_eq
  insert_target s t =
      if has_row (λ (o : Target). o.id) t.id s.targets || any_of (same_device t) s.targets
      then err constraint
      else ok (record s {
        targets =
            s.targets
            ++ record t {
              delivered_at = stored t.delivered_at;
              acknowledged_at = stored t.acknowledged_at;
            }
              ∷ [];
      })

  unfoldable pub create_subscription : Store f → Subscription → Result Error (Store f)
  unfolding has_row
  create_subscription s x =
      if has_row (λ (o : Subscription). o.id) x.id s.subscriptions
      then err constraint
      else ok (record s { subscriptions = s.subscriptions ++ x ∷ [] })

  -- The columns that `UpdateSubscription` sets; a missing row is no error.
  abbrev pub write_subscription : Subscription → Subscription → Subscription
  write_subscription x old = record old {
    enabled = x.enabled;
    url = x.url;
    event_types = x.event_types;
    updated_at = x.updated_at;
  }

  unfoldable pub update_subscription : Store f → Subscription → Result Error (Store f)
  unfolding update_rows
  update_subscription s x = ok (record s {
    subscriptions =
        update_rows (λ (o : Subscription). o.id) (write_subscription x) x.id s.subscriptions;
  })
