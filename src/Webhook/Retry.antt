-- ===== src/Webhook/Retry.antt =====
-- When a failed delivery is tried again.
use Prim.Native.Nat.{min}
use edge_rollout_control_ser.Base.{
  ℕ, suc, ◌+◌, ◌*◌, ◌<◌, ◌≤◌, ◌≡◌, ap, ◌∙◌, Option, some, Str, arith,
}
use edge_rollout_control_ser.Base.Int.{ℤ, pos, int64, int64-pos, pos_add, pos_mul, ◌*ℤ◌, ◌+ℤ◌}
use edge_rollout_control_ser.Base.Time.{Time, or_now, second, minute}
use edge_rollout_control_ser.Webhook.{Delivery, retrying, schedule_retry}

-- What `ScheduleRetry` leaves after the attempt with number `suc n`.
pub record IsScheduled (n : ℕ) (from : Time) (e : Delivery) : Type 0 where
  pub counted : e.attempts ≡ pos (suc n)
  pub waits : e.status ≡ retrying
  pub quadratic : e.next_attempt_at ≡ from + min (suc n * suc n * second) (30 * minute)
  pub not_soon : from + second ≤ e.next_attempt_at
  pub not_late : e.next_attempt_at ≤ from + 30 * minute

attempt_counts : (a : ℤ) (n : ℕ) → a ≡ pos n → n < 95999 → int64 (a +ℤ pos 1) ≡ pos (suc n)
attempt_counts a n e small =
    rw e (ap int64 (pos_add n 1) ∙ int64-pos (n + 1) (omega arith) ∙ ap pos (omega arith))

backoff_exact :
    (n : ℕ)
    → n < 95999
    → int64 (int64 (pos (suc n) *ℤ pos (suc n)) *ℤ pos second) ≡ pos (suc n * suc n * second)
backoff_exact n small =
    let squares : suc n * suc n ≤ 95999 * 95999 = grind arith in
    let square = int64-pos (suc n * suc n) (omega arith) in
    rw (pos_mul (suc n) (suc n), square, pos_mul (suc n * suc n) second)
      (int64-pos (suc n * suc n * second) (omega arith))

-- For fewer than 95,999 earlier attempts, `ScheduleRetry` counts the attempt and puts the next one
-- off by the square of their number in seconds, at most half an hour and at least a second.
pub schedule_retry-IsScheduled :
    (d e : Delivery) (n : ℕ) (now wall : Time) (failure : Option Str)
    → d.attempts ≡ pos n
    → n < 95999
    → schedule_retry (some d) now failure wall ≡ some e
    → IsScheduled n (or_now now wall) e
unfolding schedule_retry
schedule_retry-IsScheduled d e n now wall failure is_n small h =
    let counts = attempt_counts d.attempts n is_n small in
    let nanos = backoff_exact n small in
    let from = or_now now wall in
    let scheduled = rw (counts, nanos, schedule_retry) at h in
    let squares : 1 ≤ suc n * suc n = grind arith in
    record {
      counted = ground (arith, scheduled);
      waits = ground (arith, scheduled);
      quadratic = ground (arith, scheduled);
      not_soon = ground (arith, scheduled, squares);
      not_late = ground (arith, scheduled);
    }
