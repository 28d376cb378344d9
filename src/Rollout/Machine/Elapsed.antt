-- ===== src/Rollout/Machine/Elapsed.antt =====
-- `TimeIn` over all statuses.
use edge_rollout_control_ser.Base.{
  ℕ, suc, ◌+◌, ◌-◌, ◌<◌, ◌≤◌, ◌≡◌, refl, none, some, List, [], ◌∷◌, arith, ok, if◌then◌else◌,
  Option, ◌==◌, Str, last?, ap, ◌∙◌,
}
use native.Mathlib.Nat.{add-zero, zero-add, add_assoc}
use edge_rollout_control_ser.Base.Int.{pos, pos_part, ◌+ℤ◌, int64-pos}
use edge_rollout_control_ser.Base.Time.{Time, time_sub}
use edge_rollout_control_ser.Rollout.{
  Status, draft, scheduled, running, paused, completed, failed, cancelled, rolled_back,
  rolling_back, status_eq,
}
use edge_rollout_control_ser.Rollout.Machine.{
  Transition, TransitionHistory, stay_end, add_stay, time_in_from, time_in, validate_from, validate,
}

abbrev stay_of : Status → Time → Transition → ℕ
stay_of s end t = if status_eq t.to s then end - t.occurred_at else 0

-- The time spent in a status, as a plain sum.
abbrev stay : Status → Time → List Transition → ℕ
stay s until [] = 0
stay s until (t ∷ ts) = stay_of s (stay_end until ts) t + stay s until ts

add_stay-pos :
    (s : Status) (end : Time) (t : Transition) (a : ℕ)
    → a + stay_of s end t < 9223372036854775808
    → add_stay s end t (pos a) ≡ pos (a + stay_of s end t)
unfolding time_sub ◌+ℤ◌
add_stay-pos s end t a h = ground (arith, int64-pos (a + (end - t.occurred_at)))

time_in_from-pos :
    (s : Status) (until : Time) (ts : List Transition) (a : ℕ)
    → a + stay s until ts < 9223372036854775808
    → time_in_from s until ts (pos a) ≡ pos (a + stay s until ts)
unfolding time_in_from
time_in_from-pos s until [] a h = rw (add-zero a)
time_in_from-pos s until (t ∷ ts) a h = rw (add_stay-pos s (stay_end until ts) t a (omega arith)) (
    rw (
      time_in_from-pos s until ts (a + stay_of s (stay_end until ts) t) (omega arith),
      add_assoc a (stay_of s (stay_end until ts) t) (stay s until ts),
    ))

-- The transitions do not go back in time, and end before `until`.
abbrev Chronological : Time → List Transition → Type 0
Chronological until [] = Unit
Chronological until (t ∷ ts) = (t.occurred_at ≤ stay_end until ts) × Chronological until ts

-- A sum over all statuses.
abbrev pub over_statuses : (Status → ℕ) → ℕ
over_statuses f =
    f draft
    + f scheduled
    + f running
    + f paused
    + f completed
    + f failed
    + f cancelled
    + f rolled_back
    + f rolling_back

over_statuses-stay_of :
    (end : Time) (t : Transition) → over_statuses (λ s. stay_of s end t) ≡ end - t.occurred_at
over_statuses-stay_of end t = ground arith

over_statuses-stay :
    (until : Time) (t : Transition) (ts : List Transition)
    → Chronological until (t ∷ ts)
    → over_statuses (λ s. stay s until (t ∷ ts)) + t.occurred_at ≡ until
over_statuses-stay until t [] c = omega (arith, over_statuses-stay_of until t)
over_statuses-stay until t (u ∷ ts) c =
    omega (arith, over_statuses-stay_of u.occurred_at t, over_statuses-stay until u ts c.1)

le-over_statuses : (f : Status → ℕ) (s : Status) → f s ≤ over_statuses f
le-over_statuses f draft = omega arith
le-over_statuses f _ = omega arith

-- A valid history is Chronological.
Chronological-of :
    (until : Time) (i : ℕ) (p : Option Transition) (t : Transition) (ts : List Transition)
    → validate_from i p (t ∷ ts) ≡ ok tt
    → ((l : Transition) → last? (t ∷ ts) ≡ some l → l.occurred_at ≤ until)
    → Chronological until (t ∷ ts)
unfolding validate_from
Chronological-of until i p t [] v end = (end t refl, tt)
Chronological-of until i p t (u ∷ ts) v end =
    let rest : validate_from (suc i) (some t) (u ∷ ts) ≡ ok tt = ground arith in
    (ground arith, Chronological-of until (suc i) (some t) u ts rest end)

time_in-stay :
    (h : TransitionHistory) (s : Status) (until wall : Time)
    → 0 < until
    → stay s until h.transitions < 9223372036854775808
    → time_in h s until wall ≡ pos (stay s until h.transitions)
unfolding time_in
time_in-stay h s until wall some_time small =
    let now : (if until == 0 then wall else until) ≡ until = ground arith in
    rw now (
      time_in_from-pos s until h.transitions 0 (omega arith)
      ∙ ap pos (zero-add (stay s until h.transitions)))

-- For a valid, non-empty history whose last transition is not after an `until` other than the zero
-- time, with a span below 2^63 nanoseconds, the times that `TimeIn` reports add up over all statuses to the time from the
-- first transition to `until`.
pub time_in_total :
    (id : Str) (t : Transition) (ts : List Transition) (until wall : Time)
    → let h : TransitionHistory = record { rollout_id = id; transitions = t ∷ ts } in
      validate h ≡ ok tt
      → ((l : Transition) → last? (t ∷ ts) ≡ some l → l.occurred_at ≤ until)
      → 0 < until
      → until - t.occurred_at < 9223372036854775808
      → over_statuses (λ s. pos_part (time_in h s until wall)) + t.occurred_at ≡ until
unfolding validate
time_in_total id t ts until wall v end some_time span =
    let total =
      over_statuses-stay until t ts (Chronological-of until 0 none t ts (ground arith) end) in
    let each = λ (s : Status). ap pos_part (
      time_in-stay (record { rollout_id = id; transitions = t ∷ ts }) s until wall some_time
        (omega (arith, le-over_statuses (λ r. stay r until (t ∷ ts)) s))) in
    omega (
      arith,
      total,
      each draft,
      each scheduled,
      each running,
      each paused,
      each completed,
      each failed,
      each cancelled,
      each rolled_back,
      each rolling_back,
    )
