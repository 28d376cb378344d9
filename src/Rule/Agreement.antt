-- ===== src/Rule/Agreement.antt =====
-- `Evaluate` and `Decision` of a rule, and the reasons and the monotony of a pause.
use edge_rollout_control_ser.Base.{
  ◌≡◌, ◌≢◌, ◌↔◌, Bool, true, false, arith, Result, ok, err, inl, inr, Bool-cases,
}
use edge_rollout_control_ser.Base.Int.{ℤ, pos, pos_part, ◌≤ℤ◌}
use edge_rollout_control_ser.Base.Floats.{Floats, IsRounding}
use edge_rollout_control_ser.Rule.{
  Error, Reason, no_reason, failure_rate, timeout_rate, Metrics, valid, Rule, evaluate, decision,
  reaches, first_reached,
}

-- For valid metrics in which none of the failed, the timed out and the offline devices are more than
-- all devices, `Decision` is what `Evaluate` returns for the same numbers, and `Evaluate` does not
-- fail.
pub decision-evaluate :
    (f : Floats) (r : Rule f) (m : Metrics)
    → valid m ≡ true
    → m.failed ≤ℤ m.total
    → m.timed_out ≤ℤ m.total
    → m.offline ≤ℤ m.total
    → evaluate f r m.failed m.offline m.timed_out m.total ≡ ok (decision f r m)
unfolding evaluate decision
decision-evaluate f r m v a b c = ground arith

reaches_more :
    (f : Floats) (limit a b : f.Float)
    → IsRounding f
    → f.leb a b ≡ true
    → reaches f limit a ≡ true
    → reaches f limit b ≡ true
reaches_more f limit a b law le h = ground (arith, law.leb_trans limit a b)

abbrev pauses : Bool × Reason → Bool
pauses d = d.0

first_reached_more :
    (f : Floats) (r : Rule f) (a b o t : f.Float)
    → IsRounding f
    → f.leb a b ≡ true
    → pauses (first_reached f r a o t) ≡ true
    → pauses (first_reached f r b o t) ≡ true
first_reached_more f r a b o t law le h = elim (Bool-cases (reaches f r.max_failure_rate a)) [
  | inl e ↦ let more = reaches_more f r.max_failure_rate a b law le e in ground arith
  | inr n ↦ elim (Bool-cases (reaches f r.max_failure_rate b)) [
    | inl e ↦ ground arith
    | inr m ↦ ground arith
  ]
]

abbrev pub is_pause : Result Error (Bool × Reason) → Bool
is_pause (ok d) = d.0
is_pause (err e) = false

evaluate_first :
    (f : Floats) (r : Rule f) (fail offline timeout total : ℤ)
    → is_pause (evaluate f r fail offline timeout total) ≡ true
    → (pos 0 ≤ℤ fail)
      × (pos 0 ≤ℤ offline)
      × (pos 0 ≤ℤ timeout)
      × (offline ≤ℤ total)
      × (timeout ≤ℤ total)
      × (pos 1 ≤ℤ total)
      × (r.enabled ≡ true)
      × (pauses (
            first_reached f r
              (f.ratio fail (pos_part total))
              (f.ratio offline (pos_part total))
              (f.ratio timeout (pos_part total)))
          ≡ true)
unfolding evaluate
evaluate_first f r fail offline timeout total h = (
  ground arith,
  ground arith,
  ground arith,
  ground arith,
  ground arith,
  ground arith,
  ground arith,
  ground arith,
)

-- If division rounds monotonically and a rule asks for a pause, it asks for a pause with any larger
-- number of failures, up to the total, too.
pub evaluate_mono :
    (f : Floats) (r : Rule f) (fail more offline timeout total : ℤ)
    → IsRounding f
    → fail ≤ℤ more
    → more ≤ℤ total
    → is_pause (evaluate f r fail offline timeout total) ≡ true
    → is_pause (evaluate f r more offline timeout total) ≡ true
unfolding evaluate
evaluate_mono f r fail more offline timeout total law le small h =
    let (a, b, c, d, e, some_total, on, first) = evaluate_first f r fail offline timeout total h in
    let still =
      first_reached_more f r (f.ratio fail (pos_part total)) (f.ratio more (pos_part total))
        (f.ratio offline (pos_part total)) (f.ratio timeout (pos_part total)) law
        (law.ratio_mono fail more (pos_part total) (omega arith) le) first in
    ground arith

-- A rule that is disabled never asks for a pause, and one that asks for a pause names the first of
-- its limits, failures before offline devices before timeouts, that is positive and reached.
pub evaluate_reason :
    (f : Floats) (r : Rule f) (fail offline timeout total : ℤ) (why : Reason)
    → evaluate f r fail offline timeout total ≡ ok (true, why)
    → (r.enabled ≡ true)
      × (why ≢ no_reason)
      × ((why ≡ failure_rate)
          ↔ (reaches f r.max_failure_rate (f.ratio fail (pos_part total)) ≡ true))
      × ((why ≡ timeout_rate)
          → (reaches f r.max_failure_rate (f.ratio fail (pos_part total)) ≡ false)
            × (reaches f r.max_offline_rate (f.ratio offline (pos_part total)) ≡ false)
            × (reaches f r.max_timeout_rate (f.ratio timeout (pos_part total)) ≡ true))
unfolding evaluate
evaluate_reason f r fail offline timeout total why h =
    (ground arith, ground arith, (λ e. ground arith, λ e. ground arith), λ e. ground arith)
