-- ===== src/Store/Listings.antt =====
-- The statements that list rows page by page, each with the number of all matching rows. A list that
-- the code reads row by row is read at once. `like value pattern` is SQLite's `value LIKE pattern`.
use edge_rollout_control_ser.Base.{
  ℕ, Bool, true, false, not, ◌||◌, ◌&&◌, Option, none, some, List, [], ◌∷◌, ◌++◌, map, Str,
  is_empty, str_eq, str_ltb, ltb, if◌then◌else◌, select, any_of, sort_by, insert_by, length, Result,
  ok, err, ◌>>=◌,
}
use edge_rollout_control_ser.Base.Int.{ℤ, pos, ltb_ℤ}
use edge_rollout_control_ser.Base.Time.{is_zero}
use edge_rollout_control_ser.Base.Floats.{Floats}
use edge_rollout_control_ser.Device
use edge_rollout_control_ser.Device.{Device, Group}
use edge_rollout_control_ser.Configuration
use edge_rollout_control_ser.Configuration.{Configuration}
use edge_rollout_control_ser.Rule.{Rule}
use edge_rollout_control_ser.Receipt
use edge_rollout_control_ser.Receipt.{Receipt}
use edge_rollout_control_ser.Audit
use edge_rollout_control_ser.Webhook
use edge_rollout_control_ser.Webhook.{Subscription, Delivery, delivery_eq}
use edge_rollout_control_ser.Store.{Error, panic, Store, page}
use edge_rollout_control_ser.Store.Rows.{is_text, wants}
use edge_rollout_control_ser.Store.Deliveries.{time_key, read_delivery}
use edge_rollout_control_ser.Store.Creation.{get_group}

-- `"%" + s + "%"`
abbrev pub anywhere : Str → Str
anywhere s = b'%' ∷ s ++ b'%' ∷ []

-- An empty status is `none`. The statement reads no labels.
pub record DeviceFilter : Type 0 where
  pub status : Option Device.Status
  pub hardware_model : Str
  pub label_key : Str
  pub label_value : Str
  pub query : Str
  pub limit : ℤ
  pub offset : ℤ

-- The statement reads neither the model nor the order.
pub record ConfigurationFilter : Type 0 where
  pub status : Option Configuration.Status
  pub name : Str
  pub model : Str
  pub sort : Str
  pub limit : ℤ
  pub offset : ℤ

-- The statement does not read the query.
pub record RuleFilter : Type 0 where
  pub enabled : Option Bool
  pub query : Str
  pub limit : ℤ
  pub offset : ℤ

-- The statement does not read the status.
pub record ReceiptFilter : Type 0 where
  pub rollout_id : Str
  pub device_id : Str
  pub status : Option Receipt.Status
  pub limit : ℤ
  pub offset : ℤ

pub record AuditFilter : Type 0 where
  pub actor : Str
  pub resource_type : Str
  pub resource_id : Str
  pub limit : ℤ
  pub offset : ℤ

pub record SubscriptionFilter : Type 0 where
  pub enabled : Option Bool
  pub enabled_only : Bool
  pub event_type : Str
  pub limit : ℤ
  pub offset : ℤ

pub record DeliveryFilter : Type 0 where
  pub subscription_id : Str
  pub status : Option Webhook.DeliveryStatus
  pub event_type : Str
  pub limit : ℤ
  pub offset : ℤ

abbrev pub is_device_status : Option Device.Status → Device → Bool
is_device_status none d = true
is_device_status (some s) d = Device.status_eq d.status s

abbrev pub is_configuration_status : Option Configuration.Status → Configuration → Bool
is_configuration_status none c = true
is_configuration_status (some s) c = Configuration.status_eq c.status s

abbrev pub is_delivery_status : Option Webhook.DeliveryStatus → Delivery → Bool
is_delivery_status none d = true
is_delivery_status (some s) d = delivery_eq d.status s

abbrev pub is_enabled : Option Bool → Bool → Bool
is_enabled none column = true
is_enabled (some true) column = column
is_enabled (some false) column = not column

-- `ORDER BY name,version DESC`
abbrev pub version_less : Configuration → Configuration → Bool
version_less a b = if str_eq a.name b.name then ltb_ℤ b.version a.version else str_ltb a.name b.name

abbrev pub matches_query : (Str → Str → Bool) → Str → Device → Bool
matches_query like query d =
    is_empty query || like d.name (anywhere query) || like d.id (anywhere query)

abbrev pub matches_name : (Str → Str → Bool) → Str → Configuration → Bool
matches_name like name c = is_empty name || like c.name (anywhere name)

module _ (f : Floats) where
  abbrev pub device_rows : (Str → Str → Bool) → Store f → DeviceFilter → List Device
  device_rows like s q =
      select
        (λ (d : Device).
          is_device_status q.status d
          && is_text q.hardware_model d.hardware_model
          && matches_query like q.query d)
        s.devices

  abbrev pub device_less : Device → Device → Bool
  device_less = (λ (a : Device) (b : Device). str_ltb a.name b.name)

  unfoldable pub list_devices : (Str → Str → Bool) → Store f → DeviceFilter → List Device × ℕ
  unfolding str_eq str_ltb sort_by insert_by
  list_devices like s q = (
    page q.limit q.offset (sort_by device_less (device_rows like s q)),
    length (device_rows like s q),
  )

  -- The statement selects neither the creation nor the update time.
  unfoldable pub list_groups : Store f → ℤ → ℤ → List Group × ℕ
  unfolding str_ltb sort_by insert_by
  list_groups s limit offset = (
    map (λ (g : Group). record g { created_at = 0; updated_at = 0 })
        (page limit offset (sort_by (λ (a : Group) (b : Group). str_ltb a.name b.name) s.groups)),
    length s.groups,
  )

  abbrev pub of_group : Group → DeviceFilter
  of_group g = record {
    status = none;
    hardware_model = [];
    label_key = [];
    label_value = [];
    query = g.selector;
    limit = pos 1000;
    offset = pos 0;
  }

  unfoldable pub resolve_group : (Str → Str → Bool) → Store f → Str → Result Error (List Device)
  unfolding get_group list_devices
  resolve_group like s id = do g ← get_group f s id; ok (list_devices like s (of_group g)).0

  abbrev pub configuration_rows :
      (Str → Str → Bool) → Store f → ConfigurationFilter → List Configuration
  configuration_rows like s q =
      select
        (λ (c : Configuration). is_configuration_status q.status c && matches_name like q.name c)
        s.configurations

  unfoldable pub list_configurations :
      (Str → Str → Bool) → Store f → ConfigurationFilter → List Configuration × ℕ
  unfolding str_eq str_ltb sort_by insert_by
  list_configurations like s q = (
    page q.limit q.offset (sort_by version_less (configuration_rows like s q)),
    length (configuration_rows like s q),
  )

  abbrev pub rule_rows : Store f → RuleFilter → List (Rule f)
  rule_rows s q = select (λ (r : Rule f). is_enabled q.enabled r.enabled) s.rules

  abbrev pub rule_less : Rule f → Rule f → Bool
  rule_less = (λ (a : Rule f) (b : Rule f). str_ltb a.name b.name)

  unfoldable pub list_rules : Store f → RuleFilter → List (Rule f) × ℕ
  unfolding str_ltb sort_by insert_by
  list_rules s q =
      (page q.limit q.offset (sort_by rule_less (rule_rows s q)), length (rule_rows s q))

  abbrev pub receipt_rows : Store f → ReceiptFilter → List Receipt
  receipt_rows s q =
      select (λ (r : Receipt). is_text q.rollout_id r.rollout_id && is_text q.device_id r.device_id)
        s.receipts

  abbrev pub receipt_less : Receipt → Receipt → Bool
  receipt_less =
      (λ (a : Receipt) (b : Receipt). ltb (time_key b.received_at) (time_key a.received_at))

  unfoldable pub list_receipts : Store f → ReceiptFilter → List Receipt × ℕ
  unfolding str_eq sort_by insert_by
  list_receipts s q =
      (page q.limit q.offset (sort_by receipt_less (receipt_rows s q)), length (receipt_rows s q))

  abbrev pub audit_rows : Store f → AuditFilter → List Audit.Event
  audit_rows s q =
      select
        (λ (x : Audit.Event).
          is_text q.actor x.actor
          && is_text q.resource_type x.resource_type
          && is_text q.resource_id x.resource_id)
        s.audit_events

  abbrev pub audit_less : Audit.Event → Audit.Event → Bool
  audit_less =
      (λ (a : Audit.Event) (b : Audit.Event). ltb (time_key b.created_at) (time_key a.created_at))

  unfoldable pub list_audit : Store f → AuditFilter → List Audit.Event × ℕ
  unfolding str_eq sort_by insert_by
  list_audit s q =
      (page q.limit q.offset (sort_by audit_less (audit_rows s q)), length (audit_rows s q))

  -- The event type is tested after the page is taken; the number counts the rows before it.
  unfoldable pub list_subscriptions : Store f → SubscriptionFilter → List Subscription × ℕ
  unfolding str_eq str_ltb sort_by insert_by
  list_subscriptions s q =
      let rows =
        select
          (λ (x : Subscription).
            (not q.enabled_only || x.enabled) && is_enabled q.enabled x.enabled)
          s.subscriptions in
      (
        select (wants f q.event_type) (
            page q.limit q.offset
              (sort_by (λ (a : Subscription) (b : Subscription). str_ltb a.name b.name) rows)),
        length rows,
      )

  -- `scanDelivery` follows the pointer to the time of the next attempt, nil for the zero time.
  unfoldable pub list_deliveries : Store f → DeliveryFilter → Result Error (List Delivery × ℕ)
  unfolding str_eq sort_by insert_by
  list_deliveries s q =
      let rows =
        select
          (λ (d : Delivery).
            is_text q.subscription_id d.subscription_id
            && is_delivery_status q.status d
            && is_text q.event_type d.event_type)
          s.deliveries in
      let found = page q.limit q.offset (
        sort_by
          (λ (a : Delivery) (b : Delivery). ltb (time_key b.created_at) (time_key a.created_at))
          rows) in
      if any_of (λ (d : Delivery). is_zero d.next_attempt_at) found
      then err panic
      else ok (map read_delivery found, length rows)
