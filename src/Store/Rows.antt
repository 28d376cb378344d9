-- ===== src/Store/Rows.antt =====
-- The statements on rollouts, rules, devices, configurations, audit events, subscriptions and
-- deliveries that the operations read and update. A list that the code reads row by row is read at
-- once.
use edge_rollout_control_ser.Base.{
  ℕ, Bool, true, not, ◌||◌, ◌&&◌, Option, none, some, List, [], ◌∷◌, ◌++◌, map, Str, bytes,
  is_empty, str_eq, leb, ltb, if◌then◌else◌, select, any_of, sort_by, insert_by, str_ltb, length,
  Result, ok, err,
}
use edge_rollout_control_ser.Base.Int.{ℤ, pos}
use edge_rollout_control_ser.Base.Time.{Time, text_key}
use edge_rollout_control_ser.Base.Floats.{Floats}
use edge_rollout_control_ser.Rollout
use edge_rollout_control_ser.Rollout.{Rollout, status_eq}
use edge_rollout_control_ser.Device.{Device}
use edge_rollout_control_ser.Configuration.{Configuration}
use edge_rollout_control_ser.Rule.{Rule}
use edge_rollout_control_ser.Audit
use edge_rollout_control_ser.Webhook.{Subscription, Delivery}
use edge_rollout_control_ser.Store.{
  Error, repository_not_found, constraint, Store, page, stored, found, row, update_rows,
}

-- `GetRollout` scans the creation and update times into nothing.
abbrev pub read_rollout : Rollout → Rollout
read_rollout r = record r {
  created_at = 0;
  updated_at = 0;
  scheduled_at = stored r.scheduled_at;
  started_at = stored r.started_at;
  completed_at = stored r.completed_at;
}

abbrev pub read_one : {A B : Type 0} → (A → B) → Option A → Result Error B
read_one f none = err repository_not_found
read_one f (some a) = ok (f a)

-- The columns that `UpdateRollout` sets.
abbrev pub write_rollout : Rollout → Rollout → Rollout
write_rollout r old = record old {
  status = r.status;
  current_batch = r.current_batch;
  success_count = r.success_count;
  failure_count = r.failure_count;
  timeout_count = r.timeout_count;
  pause_reason = r.pause_reason;
  updated_at = r.updated_at;
  started_at = stored r.started_at;
  completed_at = stored r.completed_at;
}

-- `f.Status == ""` is `none`.
pub record RolloutFilter : Type 0 where
  pub status : Option Rollout.Status
  pub configuration_id : Str
  pub group_id : Str
  pub limit : ℤ
  pub offset : ℤ

abbrev pub is_status : Option Rollout.Status → Rollout → Bool
is_status none r = true
is_status (some s) r = status_eq r.status s

abbrev pub is_text : Str → Str → Bool
is_text wanted column = is_empty wanted || str_eq column wanted

unfoldable pub has_row : {A : Type 0} → (A → Str) → Str → List A → Bool
unfolding str_eq
has_row key id rows = any_of (λ a. str_eq (key a) id) rows

module _ (f : Floats) where
  unfoldable pub get_rollout : Store f → Str → Result Error Rollout
  unfolding row
  get_rollout s id = read_one read_rollout (row (λ (r : Rollout). r.id) id s.rollouts)

  unfoldable pub update_rollout : Store f → Rollout → Result Error (Store f)
  unfolding has_row update_rows
  update_rollout s r =
      if has_row (λ (o : Rollout). o.id) r.id s.rollouts
      then ok (record s {
        rollouts = update_rows (λ (o : Rollout). o.id) (write_rollout r) r.id s.rollouts;
      })
      else err repository_not_found

  -- The newest first; rows of the same time stay in the order of insertion.
  unfoldable pub list_rollouts : Store f → RolloutFilter → List Rollout × ℕ
  unfolding str_eq sort_by insert_by text_key
  list_rollouts s q =
      let rows =
        select
          (λ (r : Rollout).
            is_status q.status r
            && is_text q.configuration_id r.configuration_id
            && is_text q.group_id r.group_id)
          s.rollouts in
      let newest =
        sort_by (λ (a : Rollout) (b : Rollout). ltb (text_key b.created_at) (text_key a.created_at))
          rows in
      (map read_rollout (page q.limit q.offset newest), length rows)

  abbrev pub is_due : Time → Rollout → Bool
  is_due now r = elim (stored r.scheduled_at) [
    | none ↦ true
    | some t ↦ leb (text_key t) (text_key now)
  ]

  unfoldable pub list_runnable_rollouts : Store f → Time → ℤ → List Rollout
  unfolding sort_by insert_by text_key
  list_runnable_rollouts s now limit =
      let rows =
        select
          (λ (r : Rollout).
            (status_eq r.status Rollout.Status.draft || status_eq r.status Rollout.Status.running)
            && is_due now r)
          s.rollouts in
      let oldest =
        sort_by (λ (a : Rollout) (b : Rollout). ltb (text_key a.created_at) (text_key b.created_at))
          rows in
      map read_rollout (page limit (pos 0) oldest)

  unfoldable pub get_rule : Store f → Str → Result Error (Rule f)
  unfolding row
  get_rule s id = found (row (λ (r : Rule f). r.id) id s.rules)

  unfoldable pub get_device : Store f → Str → Result Error Device
  unfolding row
  get_device s id = found (row (λ (d : Device). d.id) id s.devices)

  abbrev pub write_device : Device → Device → Device
  write_device d old = record old {
    name = d.name;
    hardware_model = d.hardware_model;
    software_version = d.software_version;
    labels = d.labels;
    status = d.status;
    current_configuration_id = d.current_configuration_id;
    last_heartbeat_at = d.last_heartbeat_at;
    updated_at = d.updated_at;
  }

  abbrev pub name_taken : Store f → Device → Bool
  name_taken s d = any_of (λ (o : Device). str_eq o.name d.name && not (str_eq o.id d.id)) s.devices

  -- A missing row is no error; the column `name` is unique.
  unfoldable pub update_device : Store f → Device → Result Error (Store f)
  unfolding has_row update_rows str_eq
  update_device s d =
      if has_row (λ (o : Device). o.id) d.id s.devices && name_taken s d
      then err constraint
      else ok (record s {
        devices = update_rows (λ (o : Device). o.id) (write_device d) d.id s.devices;
      })

  unfoldable pub get_configuration : Store f → Str → Result Error Configuration
  unfolding row
  get_configuration s id = found (row (λ (c : Configuration). c.id) id s.configurations)

  unfoldable pub append_audit : Store f → Audit.Event → Result Error (Store f)
  unfolding has_row
  append_audit s e =
      if has_row (λ (o : Audit.Event). o.id) e.id s.audit_events
      then err constraint
      else ok (record s { audit_events = s.audit_events ++ e ∷ [] })

  -- `contains`
  abbrev pub wants : Str → Subscription → Bool
  wants event s =
      is_empty event || any_of (λ x. str_eq x event || str_eq x (bytes "*")) s.event_types

  -- The event type is tested after the page is taken.
  unfoldable pub list_enabled_subscriptions : Store f → Str → ℤ → List Subscription
  unfolding str_eq sort_by insert_by str_ltb
  list_enabled_subscriptions s event limit =
      let rows = select (λ (x : Subscription). x.enabled) s.subscriptions in
      select (wants event) (
        page limit (pos 0)
          (sort_by (λ (a : Subscription) (b : Subscription). str_ltb a.name b.name) rows))

  unfoldable pub enqueue_delivery : Store f → Delivery → Result Error (Store f)
  unfolding has_row
  enqueue_delivery s d =
      if has_row (λ (o : Delivery). o.id) d.id s.deliveries
      then err constraint
      else ok (record s { deliveries = s.deliveries ++ d ∷ [] })
