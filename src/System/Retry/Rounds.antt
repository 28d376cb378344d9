-- ===== src/System/Retry/Rounds.antt =====
-- What one round of the retry helper does.
use edge_rollout_control_ser.Base.{
  ℕ, zero, suc, ◌≤◌, ◌<◌, ◌≡◌, refl, true, Option, none, some, List, [], ◌∷◌, ◌==◌, inl, inr,
  Bool-cases, Option-cases, arith,
}
use edge_rollout_control_ser.Base.Int.{ℤ, pos, negsuc, pos_part, ◌≤ℤ◌}
use edge_rollout_control_ser.System.Retry.{
  RetryPolicy, normalize, wait_after, Surroundings, Failure, of_operation, of_context, Event,
  called, waited, run_from,
}

-- A policy that was normalized: one attempt at least, and a positive delay that is at most the
-- greatest one.
pub record IsNormal (p : RetryPolicy) : Type 0 where
  pub rounds : ℕ
  pub is_rounds : p.attempts ≡ pos (suc rounds)
  pub first : ℕ
  pub is_first : p.delay ≡ pos (suc first)
  pub longest : ℕ
  pub is_longest : p.max_delay ≡ pos longest
  pub in_order : suc first ≤ longest

positive : (a : ℤ) → pos 1 ≤ℤ a → (n : ℕ) × (a ≡ pos (suc n))
positive (pos zero) h = absurd (omega arith)
positive (pos (suc n)) h = (n, refl)
positive (negsuc n) h = absurd (omega arith)

normalize_bounds :
    (p : RetryPolicy)
    → (pos 1 ≤ℤ (normalize p).attempts)
      × (pos 1 ≤ℤ (normalize p).delay)
      × ((normalize p).delay ≤ℤ (normalize p).max_delay)
unfolding normalize
normalize_bounds p = (ground arith, ground arith, ground arith)

pub normalize-IsNormal : (p : RetryPolicy) → IsNormal (normalize p)
normalize-IsNormal p =
    let (a, d, o) = normalize_bounds p in
    let (n, is_n) = positive (normalize p).attempts a in
    let (x, is_x) = positive (normalize p).delay d in
    let (m, is_m) = positive (normalize p).max_delay (omega arith) in
    record {
      rounds = n;
      is_rounds = is_n;
      first = x;
      is_first = is_x;
      longest = suc m;
      is_longest = is_m;
      in_order = ground arith;
    }

-- What one round does: it finds the context done, succeeds, fails as the last one, is cut off in its
-- wait, or leads to the next.
pub data Round {E : Type 0} (o : Surroundings E) (p : RetryPolicy) (left i : ℕ)
    : Option (Failure E) × List Event → Type 0 where
  stopped : o.is_done i ≡ true → Round o p left i (some of_context, [])
  done : o.operation i ≡ none → Round o p left i (none, called i ∷ [])
  over :
      (x : E)
      → o.operation i ≡ some x
      → left ≡ 0
      → Round o p left i (some (of_operation x), called i ∷ [])
  cut :
      (x : E)
      → 0 < left
      → o.done_in_wait i ≡ true
      → Round o p left i (some of_context, called i ∷ waited (wait_after p i) ∷ [])
  next :
      (x : E)
      → o.operation i ≡ some x
      → 0 < left
      → (r : Option (Failure E) × List Event)
      → r ≡ run_from o p left (suc i) (some (of_operation x))
      → Round o p left i (r.0, called i ∷ waited (wait_after p i) ∷ r.1)

pub round :
    {E : Type 0} (o : Surroundings E) (p : RetryPolicy) (left i : ℕ) (last : Option (Failure E))
    → Round o p left i (run_from o p (suc left) i last)
unfolding run_from
round o p left i last = elim (Bool-cases (o.is_done i)) [
  | inl h ↦ rw (h, run_from) (stopped h)
  | inr goes ↦ elim (Option-cases (o.operation i)) [
    | inl well ↦ rw (goes, well, run_from) (done well)
    | inr (x, bad) ↦ elim (Bool-cases (left == 0)) [
      | inl h ↦ rw (goes, bad, h, run_from) (over x bad (ground arith))
      | inr more ↦ elim (Bool-cases (o.done_in_wait i)) [
        | inl h ↦ rw (goes, bad, more, h, run_from) (cut x (ground arith) h)
        | inr h ↦ rw (goes, bad, more, h, run_from) (next x bad (ground arith) _ refl)
      ]
    ]
  ]
]

-- The number of attempts of a policy: what it says, but one at least.
abbrev pub attempts_of : RetryPolicy → ℕ
attempts_of p = pos_part (normalize p).attempts
