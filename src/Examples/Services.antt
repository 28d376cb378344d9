-- ===== src/Examples/Services.antt =====
-- A store with one running rollout, whose device reports success, and operations on it.
use edge_rollout_control_ser.Base.{
  arith, ◌<◌, suc, ◌+◌, ◌≤◌, ◌≡◌, inl, refl, true, false, none, some, List, [], ◌∷◌, bytes, str_eq,
  length, ok,
}
use edge_rollout_control_ser.Base.Int.{pos, ◌≤ℤ◌}
use edge_rollout_control_ser.Base.Floats.{millionths}
use edge_rollout_control_ser.Rollout
use edge_rollout_control_ser.Rollout.{Rollout, Target, Strategy}
use edge_rollout_control_ser.Receipt
use edge_rollout_control_ser.Receipt.{Receipt}
use edge_rollout_control_ser.Store.{Store, row}
use edge_rollout_control_ser.Store.Rows.{get_rollout, update_rollout, read_rollout}
use edge_rollout_control_ser.Store.Targets.{count_target_states, TargetFilter, list_targets}
use edge_rollout_control_ser.Store.Laws.{Updates, list_targets_cap, update_rollout-get_rollout}
use edge_rollout_control_ser.Service.{Env, World}
use edge_rollout_control_ser.Service.Batches.{Stays, reconcile_rollout-Stays}
use edge_rollout_control_ser.Service.Reconcile.{terminal_of, total_of, reconcile_rollout}
use edge_rollout_control_ser.Service.Reports.{SubmitReceiptCommand, submit_receipt}
use edge_rollout_control_ser.Service.Runs.{Op, start, cancel, process, submit, run_all, Trace}
use edge_rollout_control_ser.Service.Edges.Kinds.{edges_of}
use edge_rollout_control_ser.Service.Edges.{Moves, status_at}
use edge_rollout_control_ser.Service.Edges.Sequences.{run_all-Moves, run_all_absorbs}
use edge_rollout_control_ser.Service.Repeats.{submit_receipt_repeats, has_key}

abbrev rollout : Rollout
rollout = record {
  id = bytes "r";
  name = bytes "spring";
  configuration_id = bytes "c";
  group_id = bytes "g";
  pause_reason = [];
  rollback_configuration_id = [];
  rule_id = [];
  created_by = bytes "ann";
  strategy = Strategy.immediate;
  batch_size = pos 2;
  batch_percent = pos 0;
  current_batch = 1;
  target_count = pos 1;
  success_count = 0;
  failure_count = 0;
  timeout_count = 0;
  scheduled_at = none;
  status = Rollout.Status.running;
  created_at = 1;
  updated_at = 1;
  started_at = some 2;
  completed_at = none;
}

abbrev target : Target
target = record {
  id = bytes "t";
  rollout_id = bytes "r";
  device_id = bytes "d";
  desired_configuration_id = bytes "c";
  error_code = [];
  error_message = [];
  batch_number = 1;
  status = Rollout.TargetStatus.delivered;
  delivered_at = some 3;
  acknowledged_at = none;
  created_at = 1;
  updated_at = 3;
}

abbrev receipt : Receipt
receipt = record {
  id = bytes "k";
  idempotency_key = bytes "key";
  rollout_id = bytes "r";
  device_id = bytes "d";
  configuration_id = bytes "c";
  error_code = [];
  message = [];
  status = Receipt.Status.succeeded;
  device_timestamp = none;
  received_at = 4;
}

abbrev store : Rollout → List Receipt → Store millionths
store r receipts = record {
  devices = [];
  groups = [];
  configurations = [];
  rules = [];
  rollouts = r ∷ [];
  targets = target ∷ [];
  receipts = receipts;
  audit_events = [];
  subscriptions = [];
  deliveries = [];
}

abbrev world : Rollout → List Receipt → World millionths
world r receipts = record { store = store r receipts; readings = 0; made = 0; calls = 0 }

-- The clock ticks, ids are 1, 2, …, and no call fails.
abbrev env : Env
env = record {
  clock = λ n. n + 10;
  new_id = λ n. suc n ∷ [];
  fails = λ n. false;
  encode = λ p. some [];
  ceiling = λ a b. pos 1;
  percentage = λ n p. pos 1;
  like = λ value pattern. true;
  sha256 = λ s. s;
  parse_url = λ s. none;
}

abbrev command : SubmitReceiptCommand
command = record {
  idempotency_key = bytes "key";
  rollout_id = bytes "r";
  configuration_id = bytes "c";
  status = Receipt.Status.succeeded;
  error_code = [];
  message = [];
  device_timestamp = none;
}

stored_key : has_key (bytes "key") (receipt ∷ []) ≡ true
unfolding str_eq
stored_key = refl

submit_receipt_repeats_example :
    (submit_receipt millionths env (bytes "d") command (world rollout (receipt ∷ []))).1.store
    ≡ store rollout (receipt ∷ [])
submit_receipt_repeats_example =
    submit_receipt_repeats millionths env (world rollout (receipt ∷ [])) (bytes "d") command
      stored_key

run_all-Moves_example :
    Trace
      (λ (op : Op millionths). Moves (edges_of op) (bytes "r"))
      (submit (bytes "d") command ∷ cancel (bytes "r") (bytes "ann") ∷ [])
      (status_at (rollout ∷ []) (bytes "r"))
      (status_at
        (run_all millionths env
          (submit (bytes "d") command ∷ cancel (bytes "r") (bytes "ann") ∷ [])
          (world rollout [])).store.rollouts
        (bytes "r"))
run_all-Moves_example =
    run_all-Moves millionths env
      (submit (bytes "d") command ∷ cancel (bytes "r") (bytes "ann") ∷ []) (world rollout [])
      (bytes "r")

abbrev stopped : Rollout
stopped = record rollout { status = Rollout.Status.cancelled }

is_stopped : status_at (stopped ∷ []) (bytes "r") ≡ some Rollout.Status.cancelled
unfolding status_at str_eq
is_stopped = refl

run_all_absorbs_example :
    status_at
      (run_all millionths env
        (start (bytes "r") (bytes "ann") ∷ process (pos 10) ∷ [])
        (world stopped [])).store.rollouts
      (bytes "r")
    ≡ some Rollout.Status.cancelled
run_all_absorbs_example =
    run_all_absorbs millionths env (start (bytes "r") (bytes "ann") ∷ process (pos 10) ∷ [])
      (world stopped []) (bytes "r") Rollout.Status.cancelled (inl refl) is_stopped

abbrev first_batch : TargetFilter
first_batch = record { status = none; batch_number = 1; limit = pos 10000; offset = pos 0 }

list_targets_cap_example :
    (length (list_targets millionths (store rollout []) (bytes "r") first_batch).0 ≤ 1000)
    × (pos 1001 ≤ℤ pos 10000
        → length (list_targets millionths (store rollout []) (bytes "r") first_batch).0 ≤ 100)
list_targets_cap_example = list_targets_cap millionths (store rollout []) (bytes "r") first_batch

abbrev held : Rollout
held = record rollout {
  status = Rollout.Status.paused;
  pause_reason = bytes "noon";
  updated_at = 9;
}

reads : get_rollout millionths (store rollout []) (bytes "r") ≡ ok (read_rollout rollout)
unfolding get_rollout row str_eq
reads = refl

update_rollout-get_rollout_example :
    Updates
      (store rollout [])
      held
      (read_rollout rollout)
      (update_rollout millionths (store rollout []) held)
update_rollout-get_rollout_example =
    update_rollout-get_rollout millionths (store rollout []) held (read_rollout rollout) reads

-- The target is delivered, and its receipt is still to come.
found : row (λ (r : Rollout). r.id) (bytes "r") (rollout ∷ []) ≡ some rollout
unfolding row str_eq
found = refl

waits :
    terminal_of (count_target_states millionths (store rollout []) (bytes "r") 1)
    < total_of (count_target_states millionths (store rollout []) (bytes "r") 1)
unfolding count_target_states str_eq
waits = omega arith

reconcile_rollout-Stays_example :
    Stays
      (bytes "r")
      rollout
      (reconcile_rollout millionths env (bytes "r") (world rollout [])).1.store.rollouts
reconcile_rollout-Stays_example =
    reconcile_rollout-Stays millionths env (world rollout []) (bytes "r") rollout found waits
