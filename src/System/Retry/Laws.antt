-- ===== src/System/Retry/Laws.antt =====
-- What a run of the retry helper returns.
use edge_rollout_control_ser.Base.{
  ℕ, zero, suc, ◌+◌, ◌≤◌, ◌<◌, ◌≡◌, refl, true, false, Option, none, some, List, ◌≢◌, ◌⊎◌, ◌∙◌, ap,
  inl, inr, arith,
}
use native.Mathlib.Decide.{dec_lt}
use edge_rollout_control_ser.System.Retry.{
  RetryPolicy, normalize, Surroundings, Failure, of_operation, of_context, Event, run_from, run,
}
use edge_rollout_control_ser.System.Retry.Rounds.{
  normalize-IsNormal, Round, stopped, done, over, cut, next, round, attempts_of,
}

-- What a result says of the operation and the context, from the attempt i on, with n in all: success
-- is that of an attempt; the error of the operation is that of the last attempt, and all failed; the
-- error of the context means that it was done.
abbrev pub Explains : {E : Type 0} → Surroundings E → ℕ → ℕ → Option (Failure E) → Type 0
Explains o i n none = (k : ℕ) × (i ≤ k) × (k < n) × (o.operation k ≡ none)
Explains o i n (some (of_operation x)) =
    ((k : ℕ) → i ≤ k → k < n → o.operation k ≢ none)
    × ((k : ℕ) → suc k ≡ n → o.operation k ≡ some x)
Explains o i n (some of_context) =
    (k : ℕ) × (i ≤ k) × (k < n) × ((o.is_done k ≡ true) ⊎ (o.done_in_wait k ≡ true))

module _ {E : Type 0} (o : Surroundings E) (p : RetryPolicy) (n : ℕ) where
  some_ne_none : (x : E) (k i : ℕ) → k ≡ i → o.operation i ≡ some x → o.operation k ≢ none
  some_ne_none x k i same bad h = cc (ap o.operation same, bad, h)

  earlier :
      (x : E) (i : ℕ) (r : Option (Failure E))
      → o.operation i ≡ some x
      → Explains o (suc i) n r
      → Explains o i n r
  earlier x i none bad (k, low, high, h) = (k, omega arith, high, h)
  earlier x i (some of_context) bad (k, low, high, h) = (k, omega arith, high, h)
  earlier x i (some (of_operation y)) bad (all, last) = (
    (λ k low high. elim (dec_lt i k) [
      | yes above ↦ all k (omega arith) high
      | no not_above ↦ some_ne_none x k i (omega arith) bad
    ]),
    last,
  )

  explained_round :
      (left i : ℕ) (r : Option (Failure E) × List Event)
      → suc left + i ≡ n
      → ((x : E)
          → 0 < left
          → Explains o (suc i) n (run_from o p left (suc i) (some (of_operation x))).0)
      → Round o p left i r
      → Explains o i n r.0
  explained_round left i _ e rest (stopped h) = (i, omega arith, omega arith, inl h)
  explained_round left i _ e rest (done h) = (i, omega arith, omega arith, h)
  explained_round left i _ e rest (over x h z) = (
    (λ k low high. some_ne_none x k i (omega arith) h),
    (λ k is_last. ap o.operation (omega arith) ∙ h),
  )
  explained_round left i _ e rest (cut x z h) = (i, omega arith, omega arith, inr h)
  explained_round left i _ e rest (next x h z r is_r) = earlier x i r.0 h (rw is_r (rest x z))

  run_from-Explains :
      (left i : ℕ) (last : Option (Failure E))
      → left + i ≡ n
      → 0 < left
      → Explains o i n (run_from o p left i last).0
  run_from-Explains zero i last e some_left = absurd (omega arith)
  run_from-Explains (suc left) i last e some_left =
      explained_round left i _ e
        (λ x z. run_from-Explains left (suc i) (some (of_operation x)) (omega arith) z)
        (round o p left i last)

-- `Run` ends. It returns no error only if an attempt succeeded; it returns the error of the operation
-- only if all attempts failed, and then that of the last; it returns the error of the context only if
-- the context was done before an attempt or in the wait after it.
pub run-Explains :
    {E : Type 0} (o : Surroundings E) (p : RetryPolicy) → Explains o 0 (attempts_of p) (run o p).0
unfolding run
run-Explains o p =
    let normal = normalize-IsNormal p in
    run_from-Explains o (normalize p) (attempts_of p) (attempts_of p) 0 none (omega arith)
      (rw (normal.is_rounds) (omega arith))

-- Where the context is never done, `Run` returns no error as soon as one of its attempts succeeds.
pub run_succeeds :
    {E : Type 0} (o : Surroundings E) (p : RetryPolicy) (k : ℕ)
    → ((i : ℕ) → o.is_done i ≡ false)
    → ((i : ℕ) → o.done_in_wait i ≡ false)
    → k < attempts_of p
    → o.operation k ≡ none
    → (run o p).0 ≡ none
run_succeeds {E} o p k never never_in_wait in_time well = succeeds (run o p).0 (run-Explains o p)
  where
    succeeds : (r : Option (Failure E)) → Explains o 0 (attempts_of p) r → r ≡ none
    succeeds none h = refl
    succeeds (some (of_operation x)) (all, last) = absurd (all k (omega arith) in_time well)
    succeeds (some of_context) (i, low, high, inl h) = absurd (cc (h, never i))
    succeeds (some of_context) (i, low, high, inr h) = absurd (cc (h, never_in_wait i))
