-- ===== src/Service/Dispatch.antt =====
-- internal/application/webhook_dispatcher.go: due deliveries are sent, retried and abandoned. The
-- request is a parameter: what came of posting a delivery to its subscription at a time.
pub mod Attempts
use edge_rollout_control_ser.Base.{
  ℕ, zero, suc, ◌+◌, ◌-◌, ◌*◌, ◌^◌, Bool, true, false, not, ◌||◌, Option, none, some, List, [], ◌∷◌,
  Str, bytes, ltb, leb, if◌then◌else◌, Result, ok, err,
}
use edge_rollout_control_ser.Base.Int.{ℤ, pos, negsuc, int64, ◌+ℤ◌, leb_ℤ, ltb_ℤ}
use edge_rollout_control_ser.Base.Time.{Time, second, minute, time_add}
use edge_rollout_control_ser.Base.Floats.{Floats}
use edge_rollout_control_ser.Webhook
use edge_rollout_control_ser.Webhook.{Subscription, Delivery}
use edge_rollout_control_ser.Store.{Error, delivery_failed}
use edge_rollout_control_ser.Store.Deliveries.{
  get_subscription, list_due_deliveries, update_delivery,
}
use edge_rollout_control_ser.Service.{
  Env, Run, pure, fail, attempt, ◌>>=◌, ◌>>◌, now, query, execute,
}

-- No answer, with the text of the error, or a status code.
pub data Answer : Type 0 where
  no_answer : Str → Answer
  answered : ℕ → Answer

-- `unexpected` is the text of the error for a status code.
pub record Client : Type 0 where
  pub post : Subscription → Delivery → Time → Answer
  pub unexpected : ℕ → Str
  pub max_attempts : ℤ

abbrev pub min_shift : ℕ → ℕ
min_shift n = if ltb n 10 then n else 10

unfoldable pub webhook_backoff : ℤ → ℤ
webhook_backoff (pos (suc n)) =
    let duration = second * 2 ^ min_shift n in
    if ltb (30 * minute) duration then pos (30 * minute) else pos duration
webhook_backoff _ = pos second

abbrev pub begun : Delivery → Time → Delivery
begun d at = record d { attempts = int64 (d.attempts +ℤ pos 1); updated_at = at }

abbrev pub abandoned : Delivery → Delivery
abandoned d = record d {
  status = Webhook.DeliveryStatus.abandoned;
  last_error = bytes "subscription disabled";
}

abbrev pub failed : Delivery → ℕ → Str → Delivery
failed d code text = record d { last_status_code = code; last_error = text }

abbrev pub given_up : Delivery → Delivery
given_up d = record d { status = Webhook.DeliveryStatus.abandoned }

abbrev pub postponed : Delivery → Time → Delivery
postponed d at = record d {
  status = Webhook.DeliveryStatus.retrying;
  next_attempt_at = time_add at (webhook_backoff d.attempts);
}

abbrev pub succeeded : Delivery → ℕ → Time → Delivery
succeeded d code at = record d {
  status = Webhook.DeliveryStatus.succeeded;
  last_status_code = code;
  last_error = [];
  delivered_at = some at;
}

module _ (f : Floats) (e : Env) (client : Client) where
  unfoldable pub record_failure : Delivery → ℕ → Str → Run f (Unit {0})
  record_failure d code text =
      if leb_ℤ client.max_attempts d.attempts
      then (execute f e (λ s. update_delivery f s (given_up (failed d code text)))
          >> fail delivery_failed)
      else (now f e >>= λ at.
          execute f e (λ s. update_delivery f s (postponed (failed d code text) at))
          >> fail delivery_failed)

  abbrev pub conclude : Delivery → Time → Answer → Run f (Unit {0})
  conclude d at (no_answer text) = record_failure d 0 text
  conclude d at (answered code) =
      if ltb code 200 || leb 300 code
      then record_failure d code (client.unexpected code)
      else execute f e (λ s. update_delivery f s (succeeded d code at))

  unfoldable pub deliver : Delivery → Run f (Unit {0})
  deliver d = do
    s ← query f e λ s. get_subscription f s d.subscription_id
    at ← now f e
    if not s.enabled
        then execute f e (λ s. update_delivery f s (abandoned (begun d at)))
        else conclude (begun d at) at (client.post s (begun d at) at)

  unfoldable pub deliver_all : List Delivery → Run f (Unit {0})
  deliver_all [] = pure tt
  deliver_all (d ∷ ds) = do done ← attempt (deliver d); deliver_all ds

  unfoldable pub process : ℤ → Run f (Unit {0})
  process limit = do
    at ← now f e
    due ← query f e λ s. list_due_deliveries f s at limit
    deliver_all due
