-- ===== src/Examples/Creations.antt =====
-- A store with two devices and a published configuration, a rollout that is created in it, and the
-- pages and the answers of a store.
use edge_rollout_control_ser.Base.{
  ◌+◌, ◌≡◌, ◌≢◌, List, map, refl, false, none, some, [], ◌∷◌, Str, bytes, trim_space, trim_left,
  trim_left_reversed, str_eq, str_ltb, suc, true, ok, contains, sort_by, insert_by,
}
use edge_rollout_control_ser.Base.Int.{pos}
use edge_rollout_control_ser.Base.Floats.{millionths}
use edge_rollout_control_ser.Device
use edge_rollout_control_ser.Device.{Device}
use edge_rollout_control_ser.Configuration
use edge_rollout_control_ser.Configuration.{Configuration}
use edge_rollout_control_ser.Rollout
use edge_rollout_control_ser.Rollout.{Rollout, Strategy}
use edge_rollout_control_ser.Store.{Store, repository_not_found, row, lim}
use edge_rollout_control_ser.Store.Rows
use edge_rollout_control_ser.Store.Creation
use edge_rollout_control_ser.Store.Listings.{
  DeviceFilter, ConfigurationFilter, RuleFilter, ReceiptFilter, AuditFilter,
}
use edge_rollout_control_ser.Service
use edge_rollout_control_ser.Service.{Env, World}
use edge_rollout_control_ser.Service.Creation.{
  CreateRolloutCommand, create_rollout, new_rollout, resolve_targets, load_all, put, put_all,
  targets_of, make_targets, store_rollout, insert_targets, transaction, has_incompatible,
  clamp_batch,
}
use edge_rollout_control_ser.Service.Creation.Created.{CreatesOrNot, create_rollout-CreatesOrNot}
use edge_rollout_control_ser.Service.Creation.Sizes.{IsBatched, create_rollout-IsBatched}
use edge_rollout_control_ser.Service.Runs.{
  publish, deprecate, add_rollout, start, run_all, error_of, Op, Trace,
}
use edge_rollout_control_ser.Service.Steps.{start_rollout}
use edge_rollout_control_ser.Api.Response.{write_error}
use edge_rollout_control_ser.Api.Response.Failures.{write_error-error_of}
use edge_rollout_control_ser.Service.Lifecycle.{Grown}
use edge_rollout_control_ser.Service.Lifecycle.Sequences.{edges_of, run_all-Grown}
use edge_rollout_control_ser.Service.Reporting.{build_dashboard, normalize_ids}
use edge_rollout_control_ser.Service.Reporting.Totals.{DashboardOf, build_dashboard-DashboardOf}
use edge_rollout_control_ser.Service.Reporting.Normal.{IdsOf, normalize_ids-IdsOf}
use edge_rollout_control_ser.Service.Pages
use edge_rollout_control_ser.Rule.{Rule}
use edge_rollout_control_ser.Receipt.{Receipt}
use edge_rollout_control_ser.Audit

abbrev device : Str → Device
device id = record {
  id = id;
  name = bytes "pump";
  hardware_model = bytes "m";
  software_version = [];
  labels = none;
  status = Device.Status.online;
  current_configuration_id = [];
  last_heartbeat_at = 1;
  created_at = 1;
  updated_at = 1;
}

abbrev configuration : Configuration
configuration = record {
  id = bytes "c";
  name = bytes "spring";
  content = bytes "x";
  content_sha256 = [];
  change_summary = [];
  created_by = [];
  format = Configuration.Format.json;
  version = pos 1;
  compatible_models = bytes "m" ∷ [];
  variables = [];
  status = Configuration.Status.published;
  created_at = 1;
  updated_at = 1;
}

abbrev store : Store millionths
store = record {
  devices = device (bytes "e") ∷ device (bytes "d") ∷ [];
  groups = [];
  configurations = configuration ∷ [];
  rules = [];
  rollouts = [];
  targets = [];
  receipts = [];
  audit_events = [];
  subscriptions = [];
  deliveries = [];
}

abbrev world : World millionths
world = record { store = store; readings = 0; made = 0; calls = 0 }

-- The clock ticks, ids are 1, 2, …, and no call fails.
abbrev env : Env
env = record {
  clock = λ n. n + 10;
  new_id = λ n. suc n ∷ [];
  fails = λ n. false;
  encode = λ p. some [];
  ceiling = λ a b. pos 1;
  percentage = λ n p. pos 1;
  like = λ value pattern. true;
  sha256 = λ s. s;
  parse_url = λ s. none;
}

abbrev command : CreateRolloutCommand
command = record {
  name = bytes "april";
  configuration_id = bytes "c";
  group_id = [];
  device_ids = bytes "e" ∷ bytes "d" ∷ [];
  strategy = Strategy.immediate;
  batch_size = pos 1;
  batch_percent = pos 0;
  scheduled_at = none;
  rule_id = [];
  rollback_configuration_id = [];
  created_by = [];
}

abbrev created : Rollout
created = new_rollout millionths env command (bytes "ann") 2 (1 ∷ []) 10

creates : (create_rollout millionths env command (bytes "ann") world).0 ≡ ok created
unfolding create_rollout Service.◌>>=◌ Service.refuse Service.query Rows.get_configuration
    Service.pure Rows.get_device Rollout.valid_strategy Service.now Service.new_id Rollout.validate
    Service.execute Creation.insert_rollout Creation.insert_target Service.audit Service.attempt
    Service.emit Service.enqueue_all contains insert_by sort_by str_eq str_ltb trim_left
    trim_left_reversed trim_space clamp_batch has_incompatible insert_targets load_all make_targets
    put put_all resolve_targets store_rollout targets_of transaction Service.fail Rows.append_audit
    Rows.enqueue_delivery Rows.list_enabled_subscriptions row lim
creates = refl

create_rollout-CreatesOrNot_example :
    CreatesOrNot store (create_rollout millionths env command (bytes "ann") world)
create_rollout-CreatesOrNot_example =
    create_rollout-CreatesOrNot millionths env command (bytes "ann") world

create_rollout-IsBatched_example :
    IsBatched world created (create_rollout millionths env command (bytes "ann") world).1
create_rollout-IsBatched_example =
    create_rollout-IsBatched millionths env command (bytes "ann") world created creates

abbrev devices : DeviceFilter
devices = record {
  status = none;
  hardware_model = bytes "m";
  label_key = [];
  label_value = [];
  query = [];
  limit = pos 0;
  offset = pos 1;
}

abbrev configurations : ConfigurationFilter
configurations = record {
  status = none;
  name = [];
  model = [];
  sort = [];
  limit = pos 5000;
  offset = pos 0;
}

abbrev rules : RuleFilter
rules = record { enabled = none; query = []; limit = pos 1; offset = pos 0 }

abbrev receipts : ReceiptFilter
receipts = record {
  rollout_id = bytes "r";
  device_id = [];
  status = none;
  limit = pos 1;
  offset = pos 0;
}

abbrev audit_events : AuditFilter
audit_events = record {
  actor = [];
  resource_type = [];
  resource_id = [];
  limit = pos 1;
  offset = pos 0;
}

run_all-Grown_example :
    Trace
      (λ (op : Op millionths). Grown (edges_of op))
      (publish (bytes "c") [] ∷ deprecate (bytes "c") [] ∷ add_rollout command (bytes "ann") ∷ [])
      (configuration ∷ [])
      (run_all millionths env
        (publish (bytes "c") [] ∷ deprecate (bytes "c") [] ∷ add_rollout command (bytes "ann") ∷ [])
        world).store.configurations
run_all-Grown_example =
    run_all-Grown millionths env
      (publish (bytes "c") [] ∷ deprecate (bytes "c") [] ∷ add_rollout command (bytes "ann") ∷ [])
      world

build_dashboard-DashboardOf_example :
    DashboardOf millionths env world (build_dashboard millionths env world)
build_dashboard-DashboardOf_example = build_dashboard-DashboardOf millionths env world

abbrev ids : List Str
ids = bytes " a" ∷ bytes "b" ∷ bytes "a " ∷ []

normalize_ids-IdsOf_example : IdsOf (map trim_space ids) (normalize_ids ids)
normalize_ids-IdsOf_example = normalize_ids-IdsOf ids

-- Starting a rollout that does not exist.
no_start :
    error_of millionths env (start (bytes "z") (bytes "ann")) world ≡ some repository_not_found
unfolding error_of start_rollout Service.◌>>=◌ Service.query Rows.get_rollout row
no_start = refl

write_error-error_of_example : (write_error repository_not_found).status ≢ 404
write_error-error_of_example =
    write_error-error_of millionths env (start (bytes "z") (bytes "ann")) world repository_not_found
      no_start
