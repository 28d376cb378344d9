-- ===== src/Store/Deliveries.antt =====
-- The statements of the webhook dispatcher.
use edge_rollout_control_ser.Base.{
  map, ℕ, Bool, ◌||◌, ◌&&◌, List, Str, leb, ltb, if◌then◌else◌, select, any_of, sort_by, Result, ok,
  err,
}
use edge_rollout_control_ser.Base.Int.{ℤ, pos}
use edge_rollout_control_ser.Base.Time.{Time, is_zero, text_key}
use edge_rollout_control_ser.Base.Floats.{Floats}
use edge_rollout_control_ser.Webhook
use edge_rollout_control_ser.Webhook.{Subscription, Delivery, delivery_eq}
use edge_rollout_control_ser.Store.{Error, panic, Store, page, stored, found, row, update_rows}

abbrev pub read_delivery : Delivery → Delivery
read_delivery d = record d { delivered_at = stored d.delivered_at }

-- The columns that `UpdateDelivery` sets.
abbrev pub write_delivery : Delivery → Delivery → Delivery
write_delivery d old = record old {
  status = d.status;
  attempts = d.attempts;
  last_status_code = d.last_status_code;
  next_attempt_at = d.next_attempt_at;
  last_error = d.last_error;
  delivered_at = stored d.delivered_at;
  updated_at = d.updated_at;
}

-- `status IN (pending, retrying)`
abbrev pub is_open : Delivery → Bool
is_open d =
    delivery_eq d.status Webhook.DeliveryStatus.pending
    || delivery_eq d.status Webhook.DeliveryStatus.retrying

-- A time as it is stored: the zero time is the empty text, which is below all others.
abbrev pub time_key : Time → ℕ
time_key t = if is_zero t then 0 else text_key t

module _ (f : Floats) where
  unfoldable pub get_subscription : Store f → Str → Result Error Subscription
  get_subscription s id = found (row (λ (x : Subscription). x.id) id s.subscriptions)

  -- `scanDelivery` follows the pointer to the time of the next attempt, which is nil for the zero
  -- time.
  unfoldable pub list_due_deliveries : Store f → Time → ℤ → Result Error (List Delivery)
  list_due_deliveries s now limit =
      let rows =
        select (λ (d : Delivery). is_open d && leb (time_key d.next_attempt_at) (time_key now))
          s.deliveries in
      let first = page limit (pos 0) (
        sort_by
          (λ (a : Delivery) (b : Delivery).
            ltb (time_key a.next_attempt_at) (time_key b.next_attempt_at))
          rows) in
      if any_of (λ (d : Delivery). is_zero d.next_attempt_at) first
      then err panic
      else ok (map read_delivery first)

  -- A missing row is no error.
  unfoldable pub update_delivery : Store f → Delivery → Result Error (Store f)
  update_delivery s d = ok (record s {
    deliveries = update_rows (λ (o : Delivery). o.id) (write_delivery d) d.id s.deliveries;
  })
