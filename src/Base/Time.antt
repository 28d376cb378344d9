-- ===== src/Base/Time.antt =====
-- `time.Time` and `time.Duration`: an instant is its nanoseconds since the zero time (year 1,
-- UTC), so `IsZero` is "equal to 0" and `UTC()` changes nothing. `Sub` saturates as Go's does.
use Prim.Native.Nat.{ℕ, suc, ◌+◌, ◌-◌, ◌*◌, ◌/◌, ◌%◌, min}
use mathlib.Core.Bool.{Bool}
use edge_rollout_control_ser.Base.Tests.{leb, ◌==◌, if◌then◌else◌}
use edge_rollout_control_ser.Base.Int.{ℤ, pos, negsuc}

abbrev pub Time : Type 0
Time = ℕ

abbrev pub max_duration : ℕ
max_duration = 9223372036854775807

abbrev pub second : ℕ
second = 1000000000

abbrev pub minute : ℕ
minute = 60000000000

abbrev pub is_zero : Time → Bool
is_zero t = t == 0

-- `t.Sub(u)`
unfoldable pub time_sub : Time → Time → ℤ
time_sub t u =
    if leb u t then pos (min (t - u) max_duration) else negsuc (min (u - t - 1) max_duration)

-- `t.Add(d)`; no instant lies before the zero time
unfoldable pub time_add : Time → ℤ → Time
time_add t (pos n) = t + n
time_add t (negsuc n) = t - suc n

-- `if at.IsZero() { at = time.Now() }`
abbrev pub or_now : Time → Time → Time
or_now at wall = if is_zero at then wall else at

-- Times are stored as RFC 3339 texts with trailing zeros of the fraction dropped, and SQL compares
-- the texts. Up to the year 9999 that is the order of this key: the seconds, and then the nine
-- digits of the fraction, where a dropped zero counts as 10, since there the text has a `Z`, which
-- is above all digits (and above the point that a fraction begins with).
abbrev digit_key : ℕ → ℕ → ℕ
digit_key frac unit = if frac % (unit * 10) == 0 then 10 else frac / unit % 10

unfoldable pub text_key : Time → ℕ
text_key t =
    let frac = t % 1000000000 in
    ((((((((t / 1000000000 * 11 + digit_key frac 100000000) * 11 + digit_key frac 10000000) * 11
                            + digit_key frac 1000000)
                          * 11
                        + digit_key frac 100000)
                      * 11
                    + digit_key frac 10000)
                  * 11
                + digit_key frac 1000)
              * 11
            + digit_key frac 100)
          * 11
        + digit_key frac 10)
      * 11
    + digit_key frac 1
