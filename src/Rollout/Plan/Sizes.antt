-- ===== src/Rollout/Plan/Sizes.antt =====
-- The batch size that a rollout's options ask for.
use edge_rollout_control_ser.Base.{ℕ, ◌+◌, ◌*◌, ◌/◌, ◌≤◌, ◌<◌, ◌≡◌, refl, arith}
use edge_rollout_control_ser.Base.Int.{ℤ, pos, negsuc, ◌≤ℤ◌, ◌+ℤ◌, ◌*ℤ◌, int64, int64-pos}
use edge_rollout_control_ser.Rollout.Plan.{calculate_batch_size, div_ℤ}

-- With no overflow the percentage is rounded up exactly.
percent_value :
    (n p : ℕ)
    → n * p + 99 < 9223372036854775808
    → div_ℤ (int64 (int64 (pos n *ℤ pos p) +ℤ pos 99)) 100 ≡ pos ((n * p + 99) / 100)
unfolding ◌+ℤ◌ ◌*ℤ◌
percent_value n p h =
    let product : pos n *ℤ pos p ≡ pos (n * p) = ground arith in
    rw (product, int64-pos (n * p) (omega arith))
      (let total : pos (n * p) +ℤ pos 99 ≡ pos (n * p + 99) = ground arith in
        rw (total, int64-pos (n * p + 99) h) refl)

mul-le-hundred : (n p : ℕ) → p ≤ 100 → n * p ≤ n * 100
mul-le-hundred n p h = grind arith

-- For n devices, an explicit size of any value and a percentage of at most 100, the batch size lies
-- between 1 and n, as long as n * 100 + 99 fits an int64.
pub calculate_batch_size_bounds :
    (n : ℕ) (explicit percent : ℤ)
    → 0 < n
    → percent ≤ℤ pos 100
    → n * 100 + 99 < 9223372036854775808
    → (pos 1 ≤ℤ calculate_batch_size (pos n) explicit percent)
      × (calculate_batch_size (pos n) explicit percent ≤ℤ pos n)
unfolding calculate_batch_size
calculate_batch_size_bounds n explicit (negsuc q) some_devices small fits = ground arith
calculate_batch_size_bounds n explicit (pos p) some_devices small fits =
    ground (arith, percent_value n p, mul-le-hundred n p)
