-- ===== src/Rule.antt =====
-- internal/domain/rule: the rules that pause a rollout, in the two ways the code evaluates them.
pub mod Agreement
use edge_rollout_control_ser.Base.{
  ℕ, Bool, true, false, not, ◌||◌, ◌&&◌, List, [], Str, bytes, is_empty, if◌then◌else◌, Result, ok,
  err, ◌>>=◌, ◌>>◌, fail_if,
}
use edge_rollout_control_ser.Base.Int.{ℤ, pos, pos_part, ltb_ℤ, leb_ℤ, eq_ℤ, ◌+ℤ◌, int64}
use edge_rollout_control_ser.Base.Time.{Time}
use edge_rollout_control_ser.Base.Floats.{Floats, ltb_float}

pub data Error : Type 0 where
  invalid : Error

-- Why a rule asks for a pause; `no_reason` is the empty string.
pub data Reason : Type 0 where
  no_reason failure_rate offline_rate timeout_rate : Reason

abbrev pub reason_name : Reason → Str
reason_name no_reason = []
reason_name failure_rate = bytes "failure_rate"
reason_name offline_rate = bytes "offline_rate"
reason_name timeout_rate = bytes "timeout_rate"

pub record Metrics : Type 0 where
  pub total : ℤ
  pub succeeded : ℤ
  pub failed : ℤ
  pub timed_out : ℤ
  pub offline : ℤ

unfoldable pub valid : Metrics → Bool
valid m =
    leb_ℤ (pos 0) m.total
    && leb_ℤ (pos 0) m.succeeded
    && leb_ℤ (pos 0) m.failed
    && leb_ℤ (pos 0) m.timed_out
    && leb_ℤ (pos 0) m.offline
    && leb_ℤ (int64 (int64 (m.succeeded +ℤ m.failed) +ℤ m.timed_out)) m.total

module _ (f : Floats) where
  pub record Rule : Type 0 where
    pub id : Str
    pub name : Str
    pub max_failure_rate : f.Float
    pub max_offline_rate : f.Float
    pub max_timeout_rate : f.Float
    pub critical_labels : List (Str × Str)
    pub enabled : Bool
    pub created_at : Time
    pub updated_at : Time

  abbrev pub out_of_unit : f.Float → Bool
  out_of_unit x = ltb_float f x f.zero || ltb_float f f.one x

  unfoldable pub validate : Rule → Result Error (Unit {0})
  validate r =
      fail_if
        (is_empty r.id
          || is_empty r.name
          || out_of_unit r.max_failure_rate
          || out_of_unit r.max_offline_rate
          || out_of_unit r.max_timeout_rate)
        invalid

  -- `limit > 0 && rate >= limit`
  abbrev pub reaches : f.Float → f.Float → Bool
  reaches limit rate = ltb_float f f.zero limit && f.leb limit rate

  -- The three tests in their order.
  abbrev pub first_reached : Rule → f.Float → f.Float → f.Float → Bool × Reason
  first_reached r failure offline timeout =
      if reaches r.max_failure_rate failure
      then (true, failure_rate)
      else if reaches r.max_offline_rate offline
      then (true, offline_rate)
      else if reaches r.max_timeout_rate timeout
      then (true, timeout_rate)
      else (false, no_reason)

  unfoldable pub evaluate : Rule → ℤ → ℤ → ℤ → ℤ → Result Error (Bool × Reason)
  evaluate r fail offline timeout total =
      if ltb_ℤ total (pos 0)
        || ltb_ℤ fail (pos 0)
        || ltb_ℤ offline (pos 0)
        || ltb_ℤ timeout (pos 0)
        || ltb_ℤ total fail
        || ltb_ℤ total offline
        || ltb_ℤ total timeout
      then err invalid
      else if not r.enabled || eq_ℤ total (pos 0)
      then ok (false, no_reason)
      else ok (
          first_reached r (f.ratio fail (pos_part total)) (f.ratio offline (pos_part total))
            (f.ratio timeout (pos_part total)))

  -- `FailureRate`, `TimeoutRate` and `OfflineRate`: 0 without a total.
  unfoldable pub rate : ℤ → Metrics → f.Float
  rate part m = if leb_ℤ m.total (pos 0) then f.zero else f.ratio part (pos_part m.total)

  unfoldable pub decision : Rule → Metrics → Bool × Reason
  unfolding valid rate
  decision r m =
      if not (valid m) || not r.enabled || eq_ℤ m.total (pos 0)
      then (false, no_reason)
      else first_reached r (rate m.failed m) (rate m.offline m) (rate m.timed_out m)
