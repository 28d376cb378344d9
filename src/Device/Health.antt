-- ===== src/Device/Health.antt =====
-- internal/domain/device/health.go: the health of a device by the age of its last heartbeat.
pub mod Laws
use edge_rollout_control_ser.Base.{
  ℕ, suc, ◌+◌, Bool, true, false, not, ◌||◌, Option, none, some, List, [], ◌∷◌, ◌++◌, map, Str,
  ◌==◌, ltb, if◌then◌else◌, length, count_if, sort_by, insert_by, str_ltb, Result, ok, err,
}
use edge_rollout_control_ser.Base.Int.{ℤ, pos, leb_ℤ}
use edge_rollout_control_ser.Base.Time.{Time, is_zero, time_sub}
use edge_rollout_control_ser.Base.Floats.{Floats}
use edge_rollout_control_ser.Device.{Device, Status, status_eq}

pub data Health : Type 0 where
  healthy stale offline retired unknown : Health

abbrev pub health_tag : Health → ℕ
health_tag Health.healthy = 0
health_tag Health.stale = 1
health_tag Health.offline = 2
health_tag Health.retired = 3
health_tag Health.unknown = 4

abbrev pub health_eq : Health → Health → Bool
health_eq a b = health_tag a == health_tag b

pub record HealthPolicy : Type 0 where
  pub stale_after : ℤ
  pub offline_after : ℤ

pub data PolicyError : Type 0 where
  stale_not_positive offline_not_greater : PolicyError

unfoldable pub validate : HealthPolicy → Result PolicyError (Unit {0})
validate p =
    if leb_ℤ p.stale_after (pos 0)
    then err stale_not_positive
    else if leb_ℤ p.offline_after p.stale_after
    then err offline_not_greater
    else ok tt

unfoldable pub evaluate_health : Device → Time → HealthPolicy → Health
unfolding time_sub
evaluate_health d now policy =
    if status_eq d.status Status.retired
    then Health.retired
    else if is_zero d.last_heartbeat_at
    then (if status_eq d.status Status.offline then Health.offline else unknown)
    else (let age = time_sub now d.last_heartbeat_at in
        if leb_ℤ policy.offline_after age || status_eq d.status Status.offline
        then Health.offline
        else if leb_ℤ policy.stale_after age
        then stale
        else healthy)

-- The maps `Counts` and `Percent` as functions from health; a missing key counts 0.
module _ (f : Floats) where
  pub record FleetHealth : Type 0 where
    pub total : ℕ
    pub counts : Health → ℕ
    pub percent : Health → Option f.Float

  unfoldable pub summarize_health : List Device → Time → HealthPolicy → FleetHealth
  summarize_health devices now policy =
      let counts =
        λ (h : Health). count_if (λ d. health_eq (evaluate_health d now policy) h) devices in
      record {
        total = length devices;
        counts = counts;
        percent = λ h.
            if ltb 0 (length devices)
            then (if ltb 0 (counts h)
                then some (f.ratio (pos (counts h)) (length devices))
                else none)
            else none;
      }

abbrev pub by_name : Device → Device → Bool
by_name a b = str_ltb a.name b.name

-- One group of the map that `GroupByHealth` returns: its loop appends each device to the group of
-- its health, and each group is sorted at the end.
unfoldable pub members : Health → List Device → Time → HealthPolicy → List Device
members h [] now policy = []
members h (d ∷ ds) now policy =
    let rest = members h ds now policy in
    if health_eq (evaluate_health d now policy) h then d ∷ rest else rest

unfoldable pub group_by_health : List Device → Time → HealthPolicy → Health → List Device
unfolding members sort_by insert_by str_ltb
group_by_health devices now policy h = sort_by by_name (members h devices now policy)

unfoldable pub heartbeat_age : Device → Time → ℤ
unfolding time_sub
heartbeat_age d now =
    if is_zero d.last_heartbeat_at || ltb now d.last_heartbeat_at
    then pos 0
    else time_sub now d.last_heartbeat_at

unfoldable pub should_mark_offline : Device → Time → HealthPolicy → Bool
unfolding time_sub
should_mark_offline d now policy =
    if status_eq d.status Status.retired || is_zero d.last_heartbeat_at
    then false
    else leb_ℤ policy.offline_after (time_sub now d.last_heartbeat_at)

unfoldable pub apply_health_policy : Option Device → Time → HealthPolicy → Option Device × Bool
unfolding should_mark_offline
apply_health_policy none now policy = (none, false)
apply_health_policy (some d) now policy =
    if not (should_mark_offline d now policy) || status_eq d.status Status.offline
    then (some d, false)
    else (some (record d { status = Status.offline; updated_at = now }), true)
