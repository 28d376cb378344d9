-- ===== src/Store.antt =====
-- internal/infrastructure/repository over the tables of internal/infrastructure/sqlite: the rows
-- that each statement reads and writes. A table is the list of its rows in the order of insertion,
-- which also decides where `ORDER BY` leaves a tie. Columns hold the Go values; of a time, the
-- zero time and a nil pointer are both stored as the empty text.
pub mod Rows
pub mod Targets
pub mod Receipts
pub mod Deliveries
pub mod Creation
pub mod Listings
pub mod Laws
use edge_rollout_control_ser.Base.{
  ℕ, suc, ◌+◌, Bool, true, false, not, ◌||◌, ◌&&◌, Option, none, some, List, [], ◌∷◌, ◌++◌, map,
  Str, bytes, is_empty, str_eq, str_ltb, ltb, leb, ◌==◌, if◌then◌else◌, length, take, drop, find?,
  select, any_of, count_if, sort_by, insert_by, Result, ok, err, ◌>>=◌,
}
use edge_rollout_control_ser.Base.Int.{ℤ, pos, negsuc, leb_ℤ, ltb_ℤ, pos_part}
use edge_rollout_control_ser.Base.Time.{Time, is_zero, text_key}
use edge_rollout_control_ser.Base.Floats.{Floats}
use edge_rollout_control_ser.Rollout
use edge_rollout_control_ser.Rollout.{Rollout, Target, TargetStatus, target_eq, status_eq}
use edge_rollout_control_ser.Device
use edge_rollout_control_ser.Device.{Device, Group}
use edge_rollout_control_ser.Configuration
use edge_rollout_control_ser.Configuration.{Configuration}
use edge_rollout_control_ser.Rule
use edge_rollout_control_ser.Rule.{Rule}
use edge_rollout_control_ser.Receipt
use edge_rollout_control_ser.Receipt.{Receipt}
use edge_rollout_control_ser.Audit
use edge_rollout_control_ser.Webhook
use edge_rollout_control_ser.Webhook.{Subscription, Delivery, delivery_eq}

-- Errors of the repository and of the service, as `errors.Is` tells them apart; the text that
-- `fmt.Errorf` puts around one does not matter to that. The repository has a `not found` of its own.
pub data Error : Type 0 where
  repository_not_found not_found conflict invalid_argument invalid_state : Error
  validation : Str → Error
  invalid_entity constraint database delivery_failed panic : Error

module _ (f : Floats) where
  pub record Store : Type 0 where
    pub devices : List Device
    pub groups : List Group
    pub configurations : List Configuration
    pub rules : List (Rule f)
    pub rollouts : List Rollout
    pub targets : List Target
    pub receipts : List Receipt
    pub audit_events : List Audit.Event
    pub subscriptions : List Subscription
    pub deliveries : List Delivery

-- `lim` and `offset`
unfoldable pub lim : ℤ → ℕ
lim (pos v) = if v == 0 || ltb 1000 v then 100 else v
lim (negsuc v) = 100

abbrev pub page : {A : Type 0} → ℤ → ℤ → List A → List A
page limit offset rows = take (lim limit) (drop (pos_part offset) rows)

-- A stored pointer to a time.
abbrev pub ptrts : Option Time → Time
ptrts none = 0
ptrts (some t) = t

abbrev pub parse : Time → Option Time
parse t = if is_zero t then none else some t

abbrev pub stored : Option Time → Option Time
stored t = parse (ptrts t)

abbrev pub found : {A : Type 0} → Option A → Result Error A
found none = err repository_not_found
found (some a) = ok a

-- `UPDATE … WHERE id=?`: the first component says whether a row was affected.
module _ {A : Type 0} (key : A → Str) where
  unfoldable pub row : Str → List A → Option A
  unfolding str_eq
  row id [] = none
  row id (a ∷ rows) = let rest = row id rows in if str_eq (key a) id then some a else rest

  unfoldable pub update_rows : (A → A) → Str → List A → List A
  unfolding str_eq
  update_rows set id [] = []
  update_rows set id (a ∷ rows) = (if str_eq (key a) id then set a else a) ∷ update_rows set id rows
