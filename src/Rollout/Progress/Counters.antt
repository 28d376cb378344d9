-- ===== src/Rollout/Progress/Counters.antt =====
-- The counters of `BuildProgress` against plain counts, and the tests on schedules.
use edge_rollout_control_ser.Base.{
  ℕ, ◌+◌, ◌≡◌, ◌≢◌, refl, Bool, true, false, not, List, [], ◌∷◌, length, count_if, arith, ◌||◌,
}
use edge_rollout_control_ser.Base.Time.{Time}
use edge_rollout_control_ser.Base.Floats.{Floats}
use edge_rollout_control_ser.Rollout.{Rollout, Target, TargetStatus, target_eq, draft, running}
use edge_rollout_control_ser.Rollout.Progress.{
  Counts, tally, tally_all, no_counts, build_progress, is_scheduled, is_runnable,
}

abbrev pub any_status : TargetStatus → List TargetStatus → Bool
any_status s [] = false
any_status s (r ∷ rs) = target_eq r s || any_status s rs

-- How many targets have one of some statuses.
abbrev pub counted : List TargetStatus → List Target → ℕ
counted ss = count_if (λ t. any_status t.status ss)

-- What the loop adds to counters.
record Adds (c : Counts) (ts : List Target) (r : Counts) : Type 0 where
  pending :
      r.pending ≡ c.pending + counted (TargetStatus.pending ∷ TargetStatus.rollback_pending ∷ []) ts
  ready : r.ready ≡ c.ready + counted (TargetStatus.ready ∷ []) ts
  delivered : r.delivered ≡ c.delivered + counted (TargetStatus.delivered ∷ []) ts
  succeeded :
      r.succeeded
      ≡ c.succeeded + counted (TargetStatus.succeeded ∷ TargetStatus.rolled_back ∷ []) ts
  failed : r.failed ≡ c.failed + counted (TargetStatus.failed ∷ []) ts
  timed_out : r.timed_out ≡ c.timed_out + counted (TargetStatus.timed_out ∷ []) ts
  all :
      r.pending + r.ready + r.delivered + r.succeeded + r.failed + r.timed_out
      ≡ c.pending + c.ready + c.delivered + c.succeeded + c.failed + c.timed_out + length ts

Adds-cons :
    (c : Counts) (t : Target) (ts : List Target) (r : Counts)
    → Adds (tally c t.status) ts r
    → Adds c (t ∷ ts) r
unfolding tally
Adds-cons c t ts r a = record {
  pending = ground (arith, a.pending);
  ready = ground (arith, a.ready);
  delivered = ground (arith, a.delivered);
  succeeded = ground (arith, a.succeeded);
  failed = ground (arith, a.failed);
  timed_out = ground (arith, a.timed_out);
  all = ground (arith, a.all);
}

tally_all-Adds : (c : Counts) (ts : List Target) → Adds c ts (tally_all c ts)
unfolding tally_all
tally_all-Adds c [] = omega arith
tally_all-Adds c (t ∷ ts) = Adds-cons c t ts _ (tally_all-Adds (tally c t.status) ts)

-- The six counters of `BuildProgress` count the targets by status, rolled back ones as succeeded
-- and those waiting for a rollback as pending, and together they are the total: no target is
-- missed or counted twice.
pub build_progress-counts :
    (f : Floats) (ts : List Target)
    → let p = build_progress f ts in
      (p.total ≡ length ts)
      × (p.counts.pending ≡ counted (TargetStatus.pending ∷ TargetStatus.rollback_pending ∷ []) ts)
      × (p.counts.ready ≡ counted (TargetStatus.ready ∷ []) ts)
      × (p.counts.delivered ≡ counted (TargetStatus.delivered ∷ []) ts)
      × (p.counts.succeeded ≡ counted (TargetStatus.succeeded ∷ TargetStatus.rolled_back ∷ []) ts)
      × (p.counts.failed ≡ counted (TargetStatus.failed ∷ []) ts)
      × (p.counts.timed_out ≡ counted (TargetStatus.timed_out ∷ []) ts)
      × (p.counts.pending + p.counts.ready + p.counts.delivered + p.counts.succeeded
            + p.counts.failed + p.counts.timed_out
          ≡ p.total)
unfolding build_progress
build_progress-counts f ts =
    let a = tally_all-Adds no_counts ts in
    (
      refl,
      omega (arith, a.pending),
      omega (arith, a.ready),
      omega (arith, a.delivered),
      omega (arith, a.succeeded),
      omega (arith, a.failed),
      omega (arith, a.timed_out),
      omega (arith, a.all),
    )

-- A draft rollout is at any time either scheduled for later or runnable, and not both; a running
-- one is runnable, and one of any other status is neither.
pub scheduled_or_runnable :
    (r : Rollout) (now : Time)
    → ((r.status ≡ draft) → is_runnable r now ≡ not (is_scheduled r now))
      × ((r.status ≡ running) → (is_runnable r now ≡ true) × (is_scheduled r now ≡ false))
      × ((r.status ≢ draft)
          → (r.status ≢ running)
          → (is_runnable r now ≡ false) × (is_scheduled r now ≡ false))
unfolding is_runnable is_scheduled
scheduled_or_runnable r now = (λ h. ground arith, λ h. ground arith, λ h k. ground arith)
