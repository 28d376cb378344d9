-- ===== src/Device/Health/Laws.antt =====
-- The health of a device over time, after a heartbeat and after `ApplyHealthPolicy`.
use edge_rollout_control_ser.Base.{
  ℕ, ◌+◌, ◌≡◌, ◌↔◌, refl, Bool, false, some, List, [], ◌∷◌, arith, ok, ◌≢◌, ◌≤◌,
}
use edge_rollout_control_ser.Base.Time.{Time}
use edge_rollout_control_ser.Base.Floats.{Floats}
use edge_rollout_control_ser.Device.{Device, Status, heartbeat}
use edge_rollout_control_ser.Device.Health.{
  Health, healthy, stale, unknown, HealthPolicy, validate, evaluate_health, summarize_health,
  apply_health_policy,
}

-- After `ApplyHealthPolicy`, at the same time and under the same policy, a device that is not
-- retired and has sent a heartbeat is offline in status exactly if its health is offline; the
-- health is what it was before, and a second call changes nothing.
pub apply_health_policy_settles :
    (d e : Device) (now : Time) (policy : HealthPolicy) (changed : Bool)
    → d.status ≢ Status.retired
    → d.last_heartbeat_at ≢ 0
    → apply_health_policy (some d) now policy ≡ (some e, changed)
    → ((e.status ≡ Status.offline) ↔ (evaluate_health e now policy ≡ Health.offline))
      × (evaluate_health e now policy ≡ evaluate_health d now policy)
      × (apply_health_policy (some e) now policy ≡ (some e, false))
unfolding apply_health_policy evaluate_health
apply_health_policy_settles d e now policy changed live beat h =
    ((λ k. ground arith, λ k. ground arith), ground arith, ground arith)

-- Healthy, stale and then everything else.
abbrev pub worse : Health → ℕ
worse Health.healthy = 0
worse Health.stale = 1
worse _ = 2

-- Under a valid policy the health of a device, with no heartbeat in between, never gets better with
-- time: from healthy to stale to one of the others.
pub evaluate_health_mono :
    (d : Device) (now later : Time) (policy : HealthPolicy)
    → validate policy ≡ ok tt
    → now ≤ later
    → worse (evaluate_health d now policy) ≤ worse (evaluate_health d later policy)
unfolding evaluate_health validate
evaluate_health_mono d now later policy valid le = ground arith

-- A heartbeat revives every device that is not retired: at its own time it is healthy under any
-- valid policy. A retired device stays as it is.
pub evaluate_health-heartbeat :
    (d : Device) (at : Time) (policy : HealthPolicy)
    → validate policy ≡ ok tt
    → at ≢ 0
    → ((d.status ≢ Status.retired) → evaluate_health (heartbeat d at) at policy ≡ healthy)
      × ((d.status ≡ Status.retired) → heartbeat d at ≡ d)
unfolding evaluate_health validate heartbeat
evaluate_health-heartbeat d at policy valid some_time = (λ h. ground arith, λ h. ground arith)

-- The counts of `SummarizeHealth` add up to the number of devices.
pub summarize_health_total :
    (f : Floats) (ds : List Device) (now : Time) (policy : HealthPolicy)
    → let s = summarize_health f ds now policy in
      s.counts healthy
        + s.counts stale
        + s.counts Health.offline
        + s.counts Health.retired
        + s.counts unknown
      ≡ s.total
unfolding summarize_health
summarize_health_total f [] now policy = refl
summarize_health_total f (d ∷ ds) now policy =
    ground (arith, summarize_health_total f ds now policy)
