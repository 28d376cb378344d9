-- ===== src/System/Retry.antt =====
-- internal/system/retry.go: repeating an operation with growing waits. The operation, the context and
-- the timer are outside: what the operation returns when it is called for the n-th time, whether the
-- context is done before that call, and whether it is done before the timer in the wait after it.
pub mod Rounds
pub mod Pacing
pub mod Laws
use edge_rollout_control_ser.Base.{
  ℕ, zero, suc, ◌*◌, ◌^◌, Bool, true, false, Option, none, some, List, [], ◌∷◌, ◌==◌, if◌then◌else◌,
}
use edge_rollout_control_ser.Base.Int.{ℤ, pos, pos_part, ◌*ℤ◌, int64, ltb_ℤ, leb_ℤ}
use edge_rollout_control_ser.Base.Time.{second}

pub record RetryPolicy : Type 0 where
  pub attempts : ℤ
  pub delay : ℤ
  pub max_delay : ℤ

abbrev pub one_attempt : RetryPolicy → RetryPolicy
one_attempt p = if ltb_ℤ p.attempts (pos 1) then record p { attempts = pos 1 } else p

abbrev pub some_delay : RetryPolicy → RetryPolicy
some_delay p = if leb_ℤ p.delay (pos 0) then record p { delay = pos second } else p

abbrev pub some_max_delay : RetryPolicy → RetryPolicy
some_max_delay p =
    if leb_ℤ p.max_delay (pos 0) then record p { max_delay = pos (30 * second) } else p

abbrev pub ordered_delays : RetryPolicy → RetryPolicy
ordered_delays p = if ltb_ℤ p.max_delay p.delay then record p { max_delay = p.delay } else p

unfoldable pub normalize : RetryPolicy → RetryPolicy
normalize p = ordered_delays (some_max_delay (some_delay (one_attempt p)))

-- `p.Delay << attempt`, capped.
unfoldable pub wait_after : RetryPolicy → ℕ → ℤ
unfolding int64 ◌*ℤ◌
wait_after p attempt =
    let delay = int64 (p.delay *ℤ pos (2 ^ attempt)) in
    if ltb_ℤ p.max_delay delay then p.max_delay else delay

pub record Surroundings (E : Type 0) : Type 0 where
  pub operation : ℕ → Option E
  pub is_done : ℕ → Bool
  pub done_in_wait : ℕ → Bool

pub data Failure (E : Type 0) : Type 0 where
  of_operation : E → Failure E
  of_context : Failure E

-- What happens in a run.
pub data Event : Type 0 where
  called : ℕ → Event
  waited : ℤ → Event

module _ {E : Type 0} (o : Surroundings E) (p : RetryPolicy) where
  abbrev pub after_event : Event → Option (Failure E) × List Event → Option (Failure E) × List Event
  after_event x (r, events) = (r, x ∷ events)

  -- The loop, with the rounds left.
  unfoldable pub run_from : ℕ → ℕ → Option (Failure E) → Option (Failure E) × List Event
  run_from zero attempt last = (last, [])
  run_from (suc left) attempt last = elim (o.is_done attempt) [
    | true ↦ (some of_context, [])
    | false ↦ after_event (called attempt) (elim (o.operation attempt) [
      | none ↦ (none, [])
      | some x ↦ elim (left == 0) [
        | true ↦ (some (of_operation x), [])
        | false ↦ after_event (waited (wait_after p attempt)) (elim (o.done_in_wait attempt) [
          | true ↦ (some of_context, [])
          | false ↦ run_from left (suc attempt) (some (of_operation x))
        ])
      ]
    ])
  ]

-- `Run`: the error it returns, or none, and what happened.
unfoldable pub run : {E : Type 0} → Surroundings E → RetryPolicy → Option (Failure E) × List Event
unfolding normalize run_from
run o p = run_from o (normalize p) (pos_part (normalize p).attempts) 0 none
