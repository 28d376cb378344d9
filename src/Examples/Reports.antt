-- ===== src/Examples/Reports.antt =====
-- Rates in millionths, a rule that asks for a pause at half, and receipts of two devices.
use mathlib.Core.List.{Nodup}
use edge_rollout_control_ser.Base.{
  ℕ, suc, ◌+◌, ◌<◌, ◌≤◌, ◌*◌, ◌/◌, ◌≡◌, refl, true, some, none, List, [], ◌∷◌, map, Str, bytes,
  str_eq, arith, ok, contains,
}
use edge_rollout_control_ser.Base.Int.{ℤ, pos, negsuc, ◌≤ℤ◌, int64, ◌+ℤ◌}
use edge_rollout_control_ser.Base.Floats.{millionths, IsRounding}
use edge_rollout_control_ser.Base.Time.{Time}
use edge_rollout_control_ser.Rule.{Rule, Metrics, timeout_rate, valid, evaluate, decision}
use edge_rollout_control_ser.Rule.Agreement.{decision-evaluate, is_pause}
use edge_rollout_control_ser.Receipt.{
  Receipt, Status, accept, compare, validate_sequence, sort_by_received_at,
}
use edge_rollout_control_ser.Receipt.Sequence.{validate_sequence-Nodup}
use edge_rollout_control_ser.Rollout
use edge_rollout_control_ser.Rollout.{Target}
use edge_rollout_control_ser.Rollout.Progress.{build_progress}
use edge_rollout_control_ser.Rollout.Progress.Counters.{build_progress-counts}
use edge_rollout_control_ser.Device
use edge_rollout_control_ser.Device.{Device}
use edge_rollout_control_ser.Device.Health.{HealthPolicy}

divides_mono : (a b n : ℕ) → 0 < n → a ≤ b → a / n ≤ b / n
divides_mono a b n h k = grind arith

scales_mono :
    (a b : ℤ) (n : ℕ)
    → 0 < n
    → a ≤ℤ b
    → millionths.leb (millionths.ratio a n) (millionths.ratio b n) ≡ true
scales_mono (pos a) (pos b) n h k =
    let le = divides_mono (a * 1000000) (b * 1000000) n h (omega arith) in ground arith
scales_mono (pos a) (negsuc b) n h k = absurd (omega arith)
scales_mono (negsuc a) (pos b) n h k = ground arith
scales_mono (negsuc a) (negsuc b) n h k =
    let le = divides_mono (suc b * 1000000) (suc a * 1000000) n h (omega arith) in ground arith

millionths-IsRounding : IsRounding millionths
millionths-IsRounding = record {
  leb_trans = λ a b c h k. ground arith;
  ratio_mono = λ a b n h k. scales_mono a b n h k;
}

abbrev rule : Rule millionths
rule = record {
  id = bytes "p";
  name = bytes "half";
  max_failure_rate = pos 500000;
  max_offline_rate = pos 0;
  max_timeout_rate = pos 250000;
  critical_labels = [];
  enabled = true;
  created_at = 1;
  updated_at = 1;
}

abbrev metrics : Metrics
metrics = record {
  total = pos 10;
  succeeded = pos 2;
  failed = pos 5;
  timed_out = pos 3;
  offline = pos 1;
}

metrics-valid : valid metrics ≡ true
unfolding valid int64 ◌+ℤ◌
metrics-valid = refl

decision-evaluate_example :
    evaluate millionths rule (pos 5) (pos 1) (pos 3) (pos 10)
    ≡ ok (decision millionths rule metrics)
decision-evaluate_example =
    decision-evaluate millionths rule metrics metrics-valid (omega arith) (omega arith)
      (omega arith)

pauses : is_pause (evaluate millionths rule (pos 5) (pos 1) (pos 3) (pos 10)) ≡ true
unfolding evaluate
pauses = refl

slow : evaluate millionths rule (pos 1) (pos 9) (pos 3) (pos 10) ≡ ok (true, timeout_rate)
unfolding evaluate
slow = refl

abbrev receipt : Str → Str → Time → Receipt
receipt key device at = record {
  id = key;
  idempotency_key = key;
  rollout_id = bytes "r";
  device_id = device;
  configuration_id = bytes "c";
  error_code = [];
  message = [];
  status = Status.succeeded;
  device_timestamp = some at;
  received_at = at;
}

accepts :
    (compare (receipt (bytes "k") (bytes "d") 5) (receipt (bytes "l") (bytes "d") 7)).0 ≡ accept
unfolding compare str_eq
accepts = refl

abbrev receipts : List Receipt
receipts = receipt (bytes "l") (bytes "e") 7 ∷ receipt (bytes "k") (bytes "d") 5 ∷ []

receipts_fit : validate_sequence receipts ≡ ok tt
unfolding validate_sequence sort_by_received_at contains str_eq
receipts_fit = refl

validate_sequence-Nodup_example : Nodup (map (λ (r : Receipt). r.idempotency_key) receipts)
validate_sequence-Nodup_example = validate_sequence-Nodup receipts receipts_fit

abbrev device : Device
device = record {
  id = bytes "d";
  name = bytes "gate";
  hardware_model = bytes "m1";
  software_version = bytes "1.2.0";
  labels = some [];
  status = Device.Status.online;
  current_configuration_id = [];
  last_heartbeat_at = 100;
  created_at = 1;
  updated_at = 1;
}

abbrev policy : HealthPolicy
policy = record { stale_after = pos 10; offline_after = pos 50 }

abbrev waiting : Target
waiting = record {
  id = bytes "t";
  rollout_id = bytes "r";
  device_id = bytes "d";
  desired_configuration_id = bytes "c";
  error_code = [];
  error_message = [];
  batch_number = 1;
  status = Rollout.TargetStatus.rollback_pending;
  delivered_at = none;
  acknowledged_at = none;
  created_at = 1;
  updated_at = 1;
}

build_progress-counts_example :
    let p = build_progress millionths (waiting ∷ []) in
    (p.total ≡ 1)
    × (p.counts.pending ≡ 1)
    × (p.counts.ready ≡ 0)
    × (p.counts.delivered ≡ 0)
    × (p.counts.succeeded ≡ 0)
    × (p.counts.failed ≡ 0)
    × (p.counts.timed_out ≡ 0)
    × (p.counts.pending + p.counts.ready + p.counts.delivered + p.counts.succeeded + p.counts.failed
          + p.counts.timed_out
        ≡ p.total)
build_progress-counts_example = build_progress-counts millionths (waiting ∷ [])
