-- ===== src/Receipt.antt =====
-- internal/domain/receipt: receipts of devices, how two of them are ordered, and summaries.
pub mod Sequence
pub mod Summaries
use edge_rollout_control_ser.Base.{
  ℕ, zero, suc, ◌+◌, Bool, true, false, not, ◌||◌, ◌&&◌, Option, none, some, List, [], ◌∷◌, ◌++◌,
  Str, bytes, is_empty, str_eq, str_ltb, ltb, ◌==◌, if◌then◌else◌, length, sort_by, insert_by,
  contains, Result, ok, err, ◌>>=◌, fail_if,
}
use edge_rollout_control_ser.Base.Int.{pos}
use edge_rollout_control_ser.Base.Time.{Time, is_zero}
use edge_rollout_control_ser.Base.Floats.{Floats}

-- The status of a command is any string: `other` is one that is no constant.
pub data Status : Type 0 where
  succeeded failed timeout : Status
  other : Str → Status

abbrev pub status_name : Status → Str
status_name succeeded = bytes "succeeded"
status_name failed = bytes "failed"
status_name timeout = bytes "timeout"
status_name (other s) = s

abbrev pub status_eq : Status → Status → Bool
status_eq succeeded succeeded = true
status_eq failed failed = true
status_eq timeout timeout = true
status_eq (other s) (other t) = str_eq s t
status_eq _ _ = false

pub record Receipt : Type 0 where
  pub id : Str
  pub idempotency_key : Str
  pub rollout_id : Str
  pub device_id : Str
  pub configuration_id : Str
  pub error_code : Str
  pub message : Str
  pub status : Status
  pub device_timestamp : Option Time
  pub received_at : Time

pub data Error : Type 0 where
  invalid : Error

unfoldable pub validate : Receipt → Result Error (Unit {0})
validate r =
    fail_if
      (is_empty r.id
        || is_empty r.idempotency_key
        || is_empty r.rollout_id
        || is_empty r.device_id
        || is_empty r.configuration_id)
      invalid

pub data OrderingDecision : Type 0 where
  accept duplicate stale conflict : OrderingDecision

-- The reasons that `Compare` gives, one for each message.
pub data OrderingReason : Type 0 where
  nothing key_processed other_target other_configuration older_device_time : OrderingReason
  same_time_other_status older_receive_time : OrderingReason

-- The part that looks at the devices' own timestamps, if both have one.
abbrev pub compare_device_times :
    Option Time
    → Option Time
    → Bool
    → OrderingDecision × OrderingReason
    → OrderingDecision × OrderingReason
compare_device_times (some old) (some new) same_status otherwise =
    if ltb new old
    then (stale, older_device_time)
    else if new == old && not same_status
    then (conflict, same_time_other_status)
    else otherwise
compare_device_times _ _ same_status otherwise = otherwise

unfoldable pub compare : Receipt → Receipt → OrderingDecision × OrderingReason
unfolding str_eq
compare existing incoming =
    if not (is_empty existing.idempotency_key)
      && str_eq existing.idempotency_key incoming.idempotency_key
    then (duplicate, key_processed)
    else if not (str_eq existing.rollout_id incoming.rollout_id)
        || not (str_eq existing.device_id incoming.device_id)
    then (conflict, other_target)
    else if not (str_eq existing.configuration_id incoming.configuration_id)
    then (conflict, other_configuration)
    else compare_device_times existing.device_timestamp incoming.device_timestamp
        (status_eq existing.status incoming.status)
        (if ltb incoming.received_at existing.received_at
          then (stale, older_receive_time)
          else (accept, nothing))

pub record Tally : Type 0 where
  pub succeeded : ℕ
  pub failed : ℕ
  pub timed_out : ℕ
  pub first_at : Time
  pub last_at : Time

abbrev pub count_status : Status → Tally → Tally
count_status Status.succeeded t = record t { succeeded = suc t.succeeded }
count_status Status.failed t = record t { failed = suc t.failed }
count_status Status.timeout t = record t { timed_out = suc t.timed_out }
count_status (other s) t = t

-- One round of the loop of `Summarize`.
unfoldable pub add_receipt : Tally → Receipt → Tally
add_receipt t item =
    let counted = count_status item.status t in
    record counted {
      first_at =
          if is_zero t.first_at || ltb item.received_at t.first_at
          then item.received_at
          else t.first_at;
      last_at =
          if is_zero t.last_at || ltb t.last_at item.received_at
          then item.received_at
          else t.last_at;
    }

unfoldable pub add_receipts : Tally → List Receipt → Tally
unfolding add_receipt
add_receipts t [] = t
add_receipts t (r ∷ rs) = add_receipts (add_receipt t r) rs

abbrev pub no_receipts : Tally
no_receipts = record { succeeded = 0; failed = 0; timed_out = 0; first_at = 0; last_at = 0 }

module _ (f : Floats) where
  pub record Summary : Type 0 where
    pub total : ℕ
    pub tally : Tally
    pub failure_rate : f.Float

  unfoldable pub summarize : List Receipt → Summary
  unfolding add_receipts
  summarize receipts =
      let t = add_receipts no_receipts receipts in
      record {
        total = length receipts;
        tally = t;
        failure_rate =
            if ltb 0 (length receipts)
            then f.ratio (pos (t.failed + t.timed_out)) (length receipts)
            else f.zero;
      }

abbrev pub received_less : Bool → Receipt → Receipt → Bool
received_less descending a b =
    if a.received_at == b.received_at
    then (if descending then str_ltb b.id a.id else str_ltb a.id b.id)
    else if descending
    then ltb b.received_at a.received_at
    else ltb a.received_at b.received_at

-- `CloneReceipts` copies the pointers too, so a copy is the value itself.
unfoldable pub sort_by_received_at : List Receipt → Bool → List Receipt
unfolding sort_by insert_by str_ltb
sort_by_received_at receipts descending = sort_by (received_less descending) receipts

-- A map from device ids.
unfoldable pub latest_at : Str → List (Str × Receipt) → Option Receipt
unfolding str_eq
latest_at key [] = none
latest_at key ((k, r) ∷ m) = let rest = latest_at key m in if str_eq k key then some r else rest

unfoldable pub set_latest : Str → Receipt → List (Str × Receipt) → List (Str × Receipt)
unfolding str_eq
set_latest key r [] = (key, r) ∷ []
set_latest key r ((k, q) ∷ m) =
    let rest = set_latest key r m in if str_eq k key then (k, r) ∷ m else (k, q) ∷ rest

abbrev pub is_later : Receipt → Option Receipt → Bool
is_later item none = true
is_later item (some current) = ltb current.received_at item.received_at

unfoldable pub latest_from : List (Str × Receipt) → List Receipt → List (Str × Receipt)
unfolding latest_at set_latest
latest_from m [] = m
latest_from m (item ∷ items) =
    latest_from
      (if is_later item (latest_at item.device_id m) then set_latest item.device_id item m else m)
      items

unfoldable pub latest_by_device : List Receipt → List (Str × Receipt)
unfolding latest_from
latest_by_device = latest_from []

pub data SequenceError : Type 0 where
  duplicate_key : Str → SequenceError
  bad_ordering : Str → OrderingReason → SequenceError

-- What the decision about the previous receipt of the same target says.
abbrev pub rejected : OrderingDecision × OrderingReason → Bool
rejected (conflict, why) = true
rejected (stale, why) = true
rejected _ = false

abbrev pub target_key : Receipt → Str
target_key r = r.rollout_id ++ bytes ":" ++ r.device_id

abbrev pub check_previous : Option Receipt → Receipt → Result SequenceError (Unit {0})
check_previous none item = ok tt
check_previous (some previous) item =
    if rejected (compare previous item)
    then err (bad_ordering (target_key item) (compare previous item).1)
    else ok tt

unfoldable pub check_sequence :
    List Str → List (Str × Receipt) → List Receipt → Result SequenceError (Unit {0})
unfolding compare latest_at set_latest
check_sequence seen latest [] = ok tt
check_sequence seen latest (item ∷ items) =
    let rest =
      check_sequence (item.idempotency_key ∷ seen) (set_latest (target_key item) item latest)
        items in
    if contains seen item.idempotency_key
    then err (duplicate_key item.idempotency_key)
    else (check_previous (latest_at (target_key item) latest) item >>= λ _. rest)

unfoldable pub validate_sequence : List Receipt → Result SequenceError (Unit {0})
unfolding check_sequence sort_by_received_at
validate_sequence receipts = check_sequence [] [] (sort_by_received_at receipts false)
