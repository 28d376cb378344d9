-- ===== src/Rollout/Progress.antt =====
-- internal/domain/rollout/summary.go: progress counters, batch counts and schedules.
pub mod Counters
pub mod Groups
use edge_rollout_control_ser.Base.{
  ℕ, zero, suc, ◌+◌, ◌-◌, ◌/◌, Bool, true, false, not, ◌||◌, ◌&&◌, Option, none, some, List, [],
  ◌∷◌, ◌++◌, map, Str, ◌==◌, ltb, leb, if◌then◌else◌, length, sort_by, insert_by, str_ltb, Result,
  ok, err,
}
use edge_rollout_control_ser.Base.Int.{ℤ, pos, negsuc, leb_ℤ, ltb_ℤ}
use edge_rollout_control_ser.Base.Time.{Time, minute, time_add}
use edge_rollout_control_ser.Base.Floats.{Floats}
use edge_rollout_control_ser.Rollout.{
  Status, draft, running, status_eq, Strategy, Rollout, Target, TargetStatus,
}

pub record Counts : Type 0 where
  pub pending : ℕ
  pub ready : ℕ
  pub delivered : ℕ
  pub succeeded : ℕ
  pub failed : ℕ
  pub timed_out : ℕ

-- The `switch` of `BuildProgress`.
unfoldable pub tally : Counts → TargetStatus → Counts
tally c TargetStatus.pending = record c { pending = suc c.pending }
tally c TargetStatus.rollback_pending = record c { pending = suc c.pending }
tally c TargetStatus.ready = record c { ready = suc c.ready }
tally c TargetStatus.delivered = record c { delivered = suc c.delivered }
tally c TargetStatus.succeeded = record c { succeeded = suc c.succeeded }
tally c TargetStatus.rolled_back = record c { succeeded = suc c.succeeded }
tally c TargetStatus.failed = record c { failed = suc c.failed }
tally c TargetStatus.timed_out = record c { timed_out = suc c.timed_out }

unfoldable pub tally_all : Counts → List Target → Counts
unfolding tally
tally_all c [] = c
tally_all c (t ∷ ts) = tally_all (tally c t.status) ts

abbrev pub no_counts : Counts
no_counts = record {
  pending = 0;
  ready = 0;
  delivered = 0;
  succeeded = 0;
  failed = 0;
  timed_out = 0;
}

module _ (f : Floats) where
  pub record Progress : Type 0 where
    pub total : ℕ
    pub counts : Counts
    pub percentage : f.Float
    pub failure_rate : f.Float

  unfoldable pub build_progress : List Target → Progress
  unfolding tally_all
  build_progress targets =
      let c = tally_all no_counts targets in
      let terminal = c.succeeded + c.failed + c.timed_out in
      record {
        total = length targets;
        counts = c;
        percentage =
            if ltb 0 (length targets)
            then f.rounded (pos terminal) (length targets) 100
            else f.zero;
        failure_rate =
            if ltb 0 terminal
            then f.rounded (pos (c.failed + c.timed_out)) terminal 100
            else f.zero;
      }

-- `int(math.Ceil(float64(a)/float64(b)))` for a, b below 2^53, where it is exact.
abbrev pub ceil_div : ℕ → ℕ → ℕ
ceil_div a b = (a + b - 1) / b

unfoldable pub batch_count : Rollout → ℕ
batch_count r = elim r.batch_size [
  | pos (suc size) ↦ elim r.target_count [ pos n ↦ ceil_div n (suc size) | negsuc n ↦ 0 ]
  | _ ↦ 0
]

-- `StatusPending` is another name of `StatusDraft`.
abbrev pub after : Option Time → Time → Bool
after none now = false
after (some t) now = ltb now t

unfoldable pub is_scheduled : Rollout → Time → Bool
is_scheduled r now = status_eq r.status draft && after r.scheduled_at now

unfoldable pub is_runnable : Rollout → Time → Bool
is_runnable r now =
    status_eq r.status running || (status_eq r.status draft && not (after r.scheduled_at now))

pub data ScheduleError : Type 0 where
  schedule_required schedule_past : ScheduleError

unfoldable pub is_immediate_gap : Strategy → Option Time → Bool
is_immediate_gap Strategy.scheduled none = true
is_immediate_gap _ _ = false

abbrev pub before_cutoff : Option Time → Time → Bool
before_cutoff none cutoff = false
before_cutoff (some t) cutoff = ltb t cutoff

unfoldable pub validate_schedule : Rollout → Time → Result ScheduleError (Unit {0})
unfolding is_immediate_gap time_add
validate_schedule r now =
    if is_immediate_gap r.strategy r.scheduled_at
    then err schedule_required
    else if before_cutoff r.scheduled_at (time_add now (negsuc (minute - 1)))
        && status_eq r.status draft
    then err schedule_past
    else ok tt

-- A map from batch numbers, as an association list. A target joins the end of its batch.
unfoldable pub add_to_group : Target → List (ℕ × List Target) → List (ℕ × List Target)
add_to_group t [] = (t.batch_number, t ∷ []) ∷ []
add_to_group t ((n, ts) ∷ groups) =
    let rest = add_to_group t groups in
    if n == t.batch_number then (n, ts ++ t ∷ []) ∷ groups else (n, ts) ∷ rest

unfoldable pub group_from : List (ℕ × List Target) → List Target → List (ℕ × List Target)
unfolding add_to_group
group_from groups [] = groups
group_from groups (t ∷ ts) = group_from (add_to_group t groups) ts

abbrev pub by_device : Target → Target → Bool
by_device a b = str_ltb a.device_id b.device_id

unfoldable pub group_targets_by_batch : List Target → List (ℕ × List Target)
unfolding group_from sort_by insert_by str_ltb
group_targets_by_batch targets = map (λ g. (g.0, sort_by by_device g.1)) (group_from [] targets)

unfoldable pub sorted_target_ids : List Target → List Str
unfolding sort_by insert_by str_ltb
sorted_target_ids targets = sort_by str_ltb (map (λ t. t.device_id) targets)
