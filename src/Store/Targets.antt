-- ===== src/Store/Targets.antt =====
-- The statements on the targets of a rollout.
use edge_rollout_control_ser.Base.{
  ℕ, Bool, true, ◌||◌, ◌&&◌, Option, none, some, List, map, Str, str_eq, ltb, ◌==◌, if◌then◌else◌,
  select, find?, count_if, sort_by, insert_by, str_ltb, length, Result, ok, err,
}
use edge_rollout_control_ser.Base.Int.{ℤ}
use edge_rollout_control_ser.Base.Floats.{Floats}
use edge_rollout_control_ser.Rollout.{Target, TargetStatus, target_eq}
use edge_rollout_control_ser.Store.{
  Error, repository_not_found, Store, lim, page, stored, update_rows,
}
use edge_rollout_control_ser.Store.Rows.{has_row, read_one}

abbrev pub read_target : Target → Target
read_target t = record t {
  delivered_at = stored t.delivered_at;
  acknowledged_at = stored t.acknowledged_at;
}

-- The columns that `UpdateTarget` sets.
abbrev pub write_target : Target → Target → Target
write_target t old = record old {
  status = t.status;
  desired_configuration_id = t.desired_configuration_id;
  delivered_at = stored t.delivered_at;
  acknowledged_at = stored t.acknowledged_at;
  error_code = t.error_code;
  error_message = t.error_message;
  updated_at = t.updated_at;
}

-- `f.Status == ""` is `none`, and batch 0 is any batch.
pub record TargetFilter : Type 0 where
  pub status : Option TargetStatus
  pub batch_number : ℕ
  pub limit : ℤ
  pub offset : ℤ

abbrev pub is_target_status : Option TargetStatus → Target → Bool
is_target_status none t = true
is_target_status (some s) t = target_eq t.status s

abbrev pub in_batch : ℕ → Target → Bool
in_batch batch t = batch == 0 || t.batch_number == batch

abbrev pub batch_less : Target → Target → Bool
batch_less a b =
    if a.batch_number == b.batch_number
    then str_ltb a.device_id b.device_id
    else ltb a.batch_number b.batch_number

module _ (f : Floats) where
  unfoldable pub list_targets : Store f → Str → TargetFilter → List Target × ℕ
  unfolding str_eq str_ltb sort_by insert_by lim
  list_targets s id q =
      let rows =
        select
          (λ (t : Target).
            str_eq t.rollout_id id && is_target_status q.status t && in_batch q.batch_number t)
          s.targets in
      (map read_target (page q.limit q.offset (sort_by batch_less rows)), length rows)

  unfoldable pub get_target : Store f → Str → Str → Result Error Target
  unfolding str_eq
  get_target s rollout device =
      read_one read_target
        (find? (λ (t : Target). str_eq t.rollout_id rollout && str_eq t.device_id device) s.targets)

  unfoldable pub update_target : Store f → Target → Result Error (Store f)
  unfolding has_row update_rows
  update_target s t =
      if has_row (λ (o : Target). o.id) t.id s.targets
      then ok (record s {
        targets = update_rows (λ (o : Target). o.id) (write_target t) t.id s.targets;
      })
      else err repository_not_found

  -- The map as a function: a status without rows counts 0.
  unfoldable pub count_target_states : Store f → Str → ℕ → TargetStatus → ℕ
  unfolding str_eq
  count_target_states s id batch state =
      count_if
        (λ (t : Target). str_eq t.rollout_id id && in_batch batch t && target_eq t.status state)
        s.targets
