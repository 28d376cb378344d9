-- ===== src/Service.antt =====
-- internal/application/service.go: how an operation runs. It reads the clock, draws ids and calls
-- the repository one statement after the other; any of these calls may fail, and then it changes
-- nothing. What is outside the program is the record `Env`: the n-th reading of the clock, the n-th
-- id, which calls of the database fail, `json.Marshal` of a payload, the ceiling of a quotient of
-- floats as an int (`percentage n p` is that of n * p / 100), SQLite's `value LIKE pattern`, the
-- SHA-256 of a text in hexadecimal, and `url.Parse`.
pub mod Triples
pub mod Steps
pub mod Reconcile
pub mod Reports
pub mod Fleet
pub mod Catalog
pub mod Creation
pub mod Pages
pub mod Outcomes
pub mod Keeps
pub mod Lifecycle
pub mod Fails
pub mod Reporting
pub mod Runs
pub mod Edges
pub mod Repeats
pub mod Batches
pub mod Dispatch
use edge_rollout_control_ser.Base.{
  ℕ, suc, Bool, true, false, Option, none, some, List, [], ◌∷◌, Str, bytes, is_empty, trim_space,
  if◌then◌else◌, Result, ok, err,
}
use edge_rollout_control_ser.Base.Int.{ℤ, pos}
use edge_rollout_control_ser.Base.Time.{Time}
use edge_rollout_control_ser.Base.Floats.{Floats}
use edge_rollout_control_ser.Rollout.{Rollout}
use edge_rollout_control_ser.Device.{Device}
use edge_rollout_control_ser.Configuration.{Configuration}
use edge_rollout_control_ser.Receipt.{Receipt}
use edge_rollout_control_ser.Audit
use edge_rollout_control_ser.Webhook
use edge_rollout_control_ser.Webhook.{Subscription, Delivery}
use edge_rollout_control_ser.Store.{Error, database, Store}
use edge_rollout_control_ser.Store.Rows.{append_audit, list_enabled_subscriptions, enqueue_delivery}

-- What is sent to subscribers.
pub data Payload : Type 0 where
  of_rollout : Rollout → Payload
  of_receipt : Receipt → Payload
  of_device : Device → Payload
  of_configuration : Configuration → Payload

pub record Env : Type 0 where
  pub clock : ℕ → Time
  pub new_id : ℕ → Str
  pub fails : ℕ → Bool
  pub encode : Payload → Option Str
  pub ceiling : ℤ → ℤ → ℤ
  pub percentage : ℕ → ℤ → ℤ
  pub like : Str → Str → Bool
  pub sha256 : Str → Str
  pub parse_url : Str → Option Webhook.Url

-- The store, and how many times the clock was read, ids were drawn and the database was called.
pub record World (f : Floats) : Type 0 where
  pub store : Store f
  pub readings : ℕ
  pub made : ℕ
  pub calls : ℕ

abbrev pub Run : Floats → Type 0 → Type 0
Run f A = World f → Result Error A × World f

unfoldable pub pure : {f : Floats} {A : Type 0} → A → Run f A
pure a w = (ok a, w)

unfoldable pub fail : {f : Floats} {A : Type 0} → Error → Run f A
fail e w = (err e, w)

-- `if failed { return e }`
unfoldable pub refuse : {f : Floats} → Bool → Error → Run f (Unit {0})
refuse failed e w = if failed then (err e, w) else (ok tt, w)

abbrev pub continue : {f : Floats} {A B : Type 0} → Result Error A → (A → Run f B) → Run f B
continue (ok a) k w = k a w
continue (err e) k w = (err e, w)

infixl 5 ◌>>=◌ ◌>>◌
unfoldable pub ◌>>=◌ : {f : Floats} {A B : Type 0} → Run f A → (A → Run f B) → Run f B
(m >>= k) w = let (r, v) = m w in continue r k v

abbrev pub ◌>>◌ : {f : Floats} {B : Type 0} → Run f (Unit {0}) → Run f B → Run f B
m >> k = m >>= λ _. k

-- The result of a run as a value, for errors that the code logs or ignores.
unfoldable pub attempt : {f : Floats} {A : Type 0} → Run f A → Run f (Result Error A)
attempt m w = let (r, v) = m w in (ok r, v)

module _ (f : Floats) (e : Env) where
  unfoldable pub now : Run f Time
  now w = (ok (e.clock w.readings), record w { readings = suc w.readings })

  unfoldable pub new_id : Run f Str
  new_id w = (ok (e.new_id w.made), record w { made = suc w.made })

  -- A statement that reads.
  unfoldable pub query : {A : Type 0} → (Store f → Result Error A) → Run f A
  query op w =
      let v = record w { calls = suc w.calls } in
      if e.fails w.calls then (err database, v) else (op w.store, v)

  abbrev pub written : World f → Result Error (Store f) → Result Error (Unit {0}) × World f
  written w (err x) = (err x, w)
  written w (ok s) = (ok tt, record w { store = s })

  -- A statement that writes.
  unfoldable pub execute : (Store f → Result Error (Store f)) → Run f (Unit {0})
  execute op w =
      let v = record w { calls = suc w.calls } in
      if e.fails w.calls then (err database, v) else written v (op w.store)

  abbrev pub written_with :
      {A : Type 0} → World f → Result Error (A × Store f) → Result Error A × World f
  written_with w (err x) = (err x, w)
  written_with w (ok (a, s)) = (ok a, record w { store = s })

  -- A statement that writes and returns a value.
  unfoldable pub execute_for : {A : Type 0} → (Store f → Result Error (A × Store f)) → Run f A
  execute_for op w =
      let v = record w { calls = suc w.calls } in
      if e.fails w.calls then (err database, v) else written_with v (op w.store)

  abbrev pub fallback : Str → Str → Str
  fallback value default = if is_empty (trim_space value) then default else value

  unfoldable pub audit : Str → Str → Str → Str → List (Str × Audit.Detail) → Run f (Unit {0})
  audit actor action resource_type resource_id details = do
    id ← new_id
    at ← now
    done ← attempt (
        execute λ s. append_audit f s (record {
          id = id;
          actor = fallback actor (bytes "anonymous");
          action = action;
          resource_type = resource_type;
          resource_id = resource_id;
          request_id = [];
          details = details;
          created_at = at;
        }))
    pure tt

  unfoldable pub enqueue_all : Str → Str → Str → Time → List Subscription → Run f (Unit {0})
  enqueue_all event_type aggregate_id encoded at [] = pure tt
  enqueue_all event_type aggregate_id encoded at (x ∷ xs) = do
    id ← new_id
    done ← attempt (
        execute λ s. enqueue_delivery f s (record {
          id = id;
          subscription_id = x.id;
          event_type = event_type;
          aggregate_id = aggregate_id;
          payload = encoded;
          status = Webhook.DeliveryStatus.pending;
          attempts = pos 0;
          last_status_code = 0;
          next_attempt_at = at;
          last_error = [];
          delivered_at = none;
          created_at = at;
          updated_at = at;
        }))
    enqueue_all event_type aggregate_id encoded at xs

  abbrev pub deliver_to : Str → Str → Payload → Result Error (List Subscription) → Run f (Unit {0})
  deliver_to event_type aggregate_id payload (err x) = pure tt
  deliver_to event_type aggregate_id payload (ok subscriptions) = elim (e.encode payload) [
    | none ↦ pure tt
    | some encoded ↦ do at ← now; enqueue_all event_type aggregate_id encoded at subscriptions
  ]

  unfoldable pub emit : Str → Str → Payload → Run f (Unit {0})
  emit event_type aggregate_id payload = do
    subscriptions ← attempt (query λ s. ok (list_enabled_subscriptions f s event_type (pos 1000)))
    deliver_to event_type aggregate_id payload subscriptions
