-- ===== src/System/Retry/Pacing.antt =====
-- How often and when a run of the retry helper calls the operation.
use edge_rollout_control_ser.Base.{
  ℕ, zero, suc, ◌+◌, ◌*◌, ◌^◌, ◌≤◌, ◌<◌, ◌≡◌, refl, min, Option, none, some, List, [], ◌∷◌, arith,
}
use native.Mathlib.Nat.{pow-le-pow_right}
use edge_rollout_control_ser.Base.Int.{pos, pos_part, int64, int64-pos, pos_mul, ◌*ℤ◌}
use edge_rollout_control_ser.System.Retry.{
  RetryPolicy, normalize, wait_after, Surroundings, Failure, of_operation, Event, called, waited,
  run_from, run,
}
use edge_rollout_control_ser.System.Retry.Rounds.{
  normalize-IsNormal, Round, stopped, done, over, cut, next, round, attempts_of,
}

-- A wait doubles from round to round up to the greatest one, where the doubled delay is no overflow.
wait_after-min :
    (p : RetryPolicy) (d m i : ℕ)
    → p.delay ≡ pos d
    → p.max_delay ≡ pos m
    → d * 2 ^ i < 9223372036854775808
    → wait_after p i ≡ pos (min (d * 2 ^ i) m)
unfolding wait_after
wait_after-min p d m i is_d is_m small =
    let shifted : int64 (p.delay *ℤ pos (2 ^ i)) ≡ pos (d * 2 ^ i) =
      rw (is_d, pos_mul d (2 ^ i)) (int64-pos (d * 2 ^ i) small) in
    rw (shifted, is_m) (ground arith)

-- The events of a run whose first call has the number i, of at most j calls: the calls are numbered
-- in order, and between one and the next there is the wait of the first.
abbrev pub Paced : ℕ → ℕ → ℕ → ℕ → List Event → Type 0
Paced d m i j [] = Unit
Paced d m i j (called k ∷ []) = (k ≡ i) × (i < j)
Paced d m i j (called k ∷ waited w ∷ es) =
    (k ≡ i) × (suc i < j) × (w ≡ pos (min (d * 2 ^ i) m)) × Paced d m (suc i) j es
Paced d m i j (called k ∷ called l ∷ es) = ⊥
Paced d m i j (waited w ∷ es) = ⊥

module _ {E : Type 0} (o : Surroundings E) (p : RetryPolicy) (d m n : ℕ) (is_d : p.delay ≡ pos d)
    (is_m : p.max_delay ≡ pos m) (small : d * 2 ^ n < 9223372036854775808) where
  no_overflow : (i : ℕ) → i ≤ n → d * 2 ^ i < 9223372036854775808
  no_overflow i h = grind (arith, pow-le-pow_right {n = 2} (omega arith) h)

  round-Paced :
      (left i : ℕ) (r : Option (Failure E) × List Event)
      → suc left + i ≡ n
      → ((x : E) → Paced d m (suc i) n (run_from o p left (suc i) (some (of_operation x))).1)
      → Round o p left i r
      → Paced d m i n r.1
  round-Paced left i _ e rest (stopped h) = tt
  round-Paced left i _ e rest (done h) = (refl, omega arith)
  round-Paced left i _ e rest (over x h z) = (refl, omega arith)
  round-Paced left i _ e rest (cut x z h) =
      (refl, omega arith, wait_after-min p d m i is_d is_m (no_overflow i (omega arith)), tt)
  round-Paced left i _ e rest (next x h z r is_r) = (
    refl,
    omega arith,
    wait_after-min p d m i is_d is_m (no_overflow i (omega arith)),
    rw is_r (rest x),
  )

  run_from-Paced :
      (left i : ℕ) (last : Option (Failure E))
      → left + i ≡ n
      → Paced d m i n (run_from o p left i last).1
  unfolding run_from
  run_from-Paced zero i last e = tt
  run_from-Paced (suc left) i last e =
      round-Paced left i _ e
        (λ x. run_from-Paced left (suc i) (some (of_operation x)) (omega arith))
        (round o p left i last)

-- The calls of a run are numbered 0, 1, 2, … and are at most as many as the policy's attempts, and
-- between two calls the run waits for the delay, doubled with each round, or for the greatest delay
-- where that is less; this holds where no doubled delay overflows.
pub run-Paced :
    {E : Type 0} (o : Surroundings E) (p : RetryPolicy)
    → pos_part (normalize p).delay * 2 ^ attempts_of p < 9223372036854775808
    → Paced
        (pos_part (normalize p).delay)
        (pos_part (normalize p).max_delay)
        0
        (attempts_of p)
        (run o p).1
unfolding run
run-Paced o p small =
    let normal = normalize-IsNormal p in
    run_from-Paced o (normalize p) _ _ (attempts_of p) (rw (normal.is_first) refl)
      (rw (normal.is_longest) refl) small (attempts_of p) 0 none (omega arith)
