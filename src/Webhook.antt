-- ===== src/Webhook.antt =====
-- internal/domain/webhook: subscriptions, deliveries and their event types. The parser of URLs and
-- the HMAC are parameters.
pub mod Events
pub mod Retry
use edge_rollout_control_ser.Base.{
  ℕ, suc, ◌+◌, ◌*◌, Bool, true, false, not, ◌||◌, ◌&&◌, Option, none, some, List, [], ◌∷◌, ◌++◌,
  Str, bytes, is_empty, trim_space, str_eq, str_ltb, ltb, ◌==◌, if◌then◌else◌, any_of, sort_by,
  insert_by, contains, Result, ok, err, ◌>>=◌, ◌>>◌, fail_if,
}
use edge_rollout_control_ser.Base.Int.{ℤ, pos, ◌*ℤ◌, ◌+ℤ◌, int64, ltb_ℤ}
use edge_rollout_control_ser.Base.Time.{Time, minute, second, or_now, time_add}

pub record Subscription : Type 0 where
  pub id : Str
  pub name : Str
  pub url : Str
  pub secret : Str
  pub event_types : List Str
  pub enabled : Bool
  pub created_at : Time
  pub updated_at : Time

pub data DeliveryStatus : Type 0 where
  pending delivered failed retrying succeeded abandoned : DeliveryStatus

abbrev pub delivery_tag : DeliveryStatus → ℕ
delivery_tag pending = 0
delivery_tag delivered = 1
delivery_tag failed = 2
delivery_tag retrying = 3
delivery_tag succeeded = 4
delivery_tag abandoned = 5

abbrev pub delivery_eq : DeliveryStatus → DeliveryStatus → Bool
delivery_eq a b = delivery_tag a == delivery_tag b

pub record Delivery : Type 0 where
  pub id : Str
  pub subscription_id : Str
  pub event_type : Str
  pub aggregate_id : Str
  pub payload : Str
  pub status : DeliveryStatus
  pub attempts : ℤ
  pub last_status_code : ℕ
  pub next_attempt_at : Time
  pub last_error : Str
  pub delivered_at : Option Time
  pub created_at : Time
  pub updated_at : Time

pub data Error : Type 0 where
  invalid : Error

-- What `url.Parse` says of a text: the scheme and the host, or no URL.
pub record Url : Type 0 where
  pub scheme : Str
  pub host : Str

module _ (parse_url : Str → Option Url) where
  unfoldable pub validate_url : Str → Result Error (Unit {0})
  unfolding str_eq
  validate_url raw = elim (parse_url raw) [
    | none ↦ err invalid
    | some u ↦ fail_if (not (str_eq u.scheme (bytes "https")) || is_empty u.host) invalid
  ]

  unfoldable pub validate : Subscription → Result Error (Unit {0})
  unfolding str_eq
  validate s = elim (parse_url s.url) [
    | none ↦ err invalid
    | some u ↦
        fail_if
          (is_empty s.id
            || is_empty s.name
            || not (str_eq u.scheme (bytes "https"))
            || is_empty u.host)
          invalid
  ]

-- The error of a failed attempt is its text, `none` is nil; `wall` is what `time.Now()` returns.
unfoldable pub schedule_retry : Option Delivery → Time → Option Str → Time → Option Delivery
unfolding time_add
schedule_retry none now failure wall = none
schedule_retry (some d) now failure wall =
    let attempts = int64 (d.attempts +ℤ pos 1) in
    let backoff = int64 (int64 (attempts *ℤ attempts) *ℤ pos second) in
    let capped = if ltb_ℤ (pos (30 * minute)) backoff then pos (30 * minute) else backoff in
    some (record d {
      attempts = attempts;
      last_error = elim failure [ none ↦ [] | some e ↦ e ];
      next_attempt_at = time_add (or_now now wall) capped;
      status = retrying;
    })

abbrev pub supported_events : List Str
supported_events =
    bytes "configuration.created"
    ∷ bytes "configuration.published"
    ∷ bytes "device.created"
    ∷ bytes "receipt.accepted"
    ∷ bytes "rollout.rollback_started"
    ∷ bytes "rollout.cancelled"
    ∷ bytes "rollout.completed"
    ∷ bytes "rollout.created"
    ∷ bytes "rollout.paused"
    ∷ bytes "rollout.started"
    ∷ []

pub data EventError : Type 0 where
  unsupported_event duplicate_event : Str → EventError
  ids_required marshal_failed : EventError

unfoldable pub check_events : List Str → List Str → Result EventError (Unit {0})
unfolding contains str_eq
check_events seen [] = ok tt
check_events seen (value ∷ values) =
    let skip = check_events seen values in
    let rest = check_events (value ∷ seen) values in
    if str_eq value (bytes "*")
    then skip
    else if not (contains supported_events value)
    then err (unsupported_event value)
    else if contains seen value
    then err (duplicate_event value)
    else rest

unfoldable pub validate_event_types : List Str → Result EventError (Unit {0})
unfolding check_events
validate_event_types = check_events []

pub record EventEnvelope : Type 0 where
  pub id : Str
  pub event_type : Str
  pub aggregate_id : Str
  pub occurred_at : Time
  pub body : Str

-- `encoded` is what `json.Marshal` makes of the data.
unfoldable pub new_event_envelope :
    Str → Str → Str → Time → Option Str → Time → Result EventError EventEnvelope
unfolding validate_event_types
new_event_envelope id event_type aggregate_id occurred_at encoded wall = do
  fail_if (is_empty id || is_empty aggregate_id) ids_required
  validate_event_types (event_type ∷ [])
  elim encoded [
    | none ↦ err marshal_failed
    | some payload ↦ ok (record {
      id = id;
      event_type = event_type;
      aggregate_id = aggregate_id;
      occurred_at = or_now occurred_at wall;
      body = payload;
    })
  ]

unfoldable pub matches : Subscription → Str → Bool
unfolding str_eq
matches s event_type =
    if not s.enabled
    then false
    else any_of (λ c. str_eq c (bytes "*") || str_eq c event_type) s.event_types

-- The keys of the set, in the order of insertion, and then sorted.
unfoldable pub event_set : List Str → List Str → List Str
unfolding trim_space contains
event_set seen [] = seen
event_set seen (v ∷ values) =
    let value = trim_space v in
    event_set
      (if not (is_empty value) && not (contains seen value) then seen ++ value ∷ [] else seen)
      values

unfoldable pub normalize_event_types : List Str → List Str
unfolding event_set sort_by insert_by str_ltb
normalize_event_types values = sort_by str_ltb (event_set [] values)

module _ (hmac_sha256 : Str → Str → Str) (unix_seconds : Time → Str) where
  -- `hmac` of a secret and a message, in hexadecimal; `unix_seconds` is the decimal of `Unix()`.
  unfoldable pub sign : Str → Time → Str → Str
  sign secret timestamp body =
      bytes "sha256=" ++ hmac_sha256 secret (unix_seconds timestamp ++ bytes "." ++ body)

  unfoldable pub verify : Str → Str → Time → Str → Bool
  unfolding sign str_eq
  verify secret signature timestamp body = str_eq (sign secret timestamp body) signature
