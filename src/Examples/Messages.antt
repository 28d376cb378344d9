-- ===== src/Examples/Messages.antt =====
-- Audit timelines, webhook subscriptions and deliveries, and the latest receipts.
use mathlib.Core.List.{Nodup, Mem}
use edge_rollout_control_ser.Base.{
  suc, true, false, ◌+◌, ℕ, ◌≤◌, ◌≡◌, ◌≢◌, ◌↔◌, refl, none, some, List, [], ◌∷◌, map, Str, bytes,
  str_eq, arith, ok, contains, All,
}
use edge_rollout_control_ser.Base.Int.{pos, int64, ◌+ℤ◌, ◌*ℤ◌}
use edge_rollout_control_ser.Base.Time.{Time}
use edge_rollout_control_ser.Audit.{
  Event, Timeline, build_timeline, validate_sequence, merge_timelines, all_events,
}
use edge_rollout_control_ser.Audit.Timelines.{
  Carries, Chronological, IsTimeline, validate_sequence_iff, build_timeline-IsTimeline,
  merge_timelines_merges,
}
use edge_rollout_control_ser.Webhook
use edge_rollout_control_ser.Webhook.{Delivery, schedule_retry, validate_event_types}
use edge_rollout_control_ser.Webhook.Retry.{IsScheduled, schedule_retry-IsScheduled}
use edge_rollout_control_ser.Base.Floats.{millionths}
use edge_rollout_control_ser.Service.{Env, World}
use edge_rollout_control_ser.Service.Dispatch.{Client, answered, process}
use edge_rollout_control_ser.Service.Dispatch.Attempts.{IsBounded, process-IsBounded}
use edge_rollout_control_ser.Receipt
use edge_rollout_control_ser.Receipt.{Receipt, latest_at, latest_by_device}
use edge_rollout_control_ser.Receipt.Summaries.{latest_by_device_latest}

abbrev event : Str → Str → Time → Event
event id action at = record {
  id = id;
  actor = bytes "ann";
  action = action;
  resource_type = bytes "rollout";
  resource_id = bytes "r";
  request_id = [];
  details = [];
  created_at = at;
}

abbrev created : Event
created = event (bytes "a") (bytes "created") 1

abbrev started : Event
started = event (bytes "b") (bytes "started") 2

abbrev timeline : Timeline
timeline = record {
  resource_type = bytes "rollout";
  resource_id = bytes "r";
  events = created ∷ started ∷ [];
  first_at = 1;
  last_at = 2;
}

builds : build_timeline (started ∷ created ∷ []) ≡ ok timeline
unfolding build_timeline
builds = refl

build_timeline-IsTimeline_example : IsTimeline (started ∷ created ∷ []) timeline
build_timeline-IsTimeline_example =
    build_timeline-IsTimeline (started ∷ created ∷ []) timeline builds

validate_sequence_iff_example :
    (validate_sequence timeline (bytes "created" ∷ bytes "started" ∷ []) ≡ ok tt)
    ↔ Carries (bytes "created" ∷ bytes "started" ∷ []) (created ∷ started ∷ [])
validate_sequence_iff_example =
    validate_sequence_iff timeline (bytes "created" ∷ bytes "started" ∷ [])

merge_timelines_merges_example :
    let merged = merge_timelines (timeline ∷ timeline ∷ []) in
    Nodup (map (λ (e : Event). e.id) merged)
    × ((id : Str)
        → contains (map (λ (e : Event). e.id) merged) id
          ≡ contains (map (λ (e : Event). e.id) (all_events (timeline ∷ timeline ∷ []))) id)
    × Chronological merged
merge_timelines_merges_example = merge_timelines_merges (timeline ∷ timeline ∷ [])

abbrev delivery : ℕ → Delivery
delivery attempts = record {
  id = bytes "w";
  subscription_id = bytes "s";
  event_type = bytes "rollout.started";
  aggregate_id = bytes "r";
  payload = [];
  status = Webhook.DeliveryStatus.pending;
  attempts = pos attempts;
  last_status_code = 0;
  next_attempt_at = 5;
  last_error = [];
  delivered_at = none;
  created_at = 5;
  updated_at = 5;
}

abbrev again : Delivery
again = record (delivery 2) {
  status = Webhook.DeliveryStatus.retrying;
  next_attempt_at = 4000000005;
  last_error = bytes "503";
}

retries : schedule_retry (some (delivery 1)) 5 (some (bytes "503")) 9 ≡ some again
unfolding schedule_retry int64 ◌+ℤ◌ ◌*ℤ◌
retries = refl

schedule_retry-IsScheduled_example : IsScheduled 1 5 again
schedule_retry-IsScheduled_example =
    schedule_retry-IsScheduled (delivery 1) again 1 5 9 (some (bytes "503")) refl (omega arith)
      retries

abbrev receipt : Str → Time → Receipt
receipt key at = record {
  id = key;
  idempotency_key = key;
  rollout_id = bytes "r";
  device_id = bytes "d";
  configuration_id = bytes "c";
  error_code = [];
  message = [];
  status = Receipt.Status.succeeded;
  device_timestamp = none;
  received_at = at;
}

abbrev receipts : List Receipt
receipts = receipt (bytes "k") 5 ∷ receipt (bytes "l") 4 ∷ []

latest : latest_at (bytes "d") (latest_by_device receipts) ≡ some (receipt (bytes "k") 5)
unfolding latest_by_device latest_at str_eq
latest = refl

latest_by_device_latest_example :
    ((r : Receipt)
      → latest_at (bytes "d") (latest_by_device receipts) ≡ some r
      → Mem r receipts
        × (r.device_id ≡ bytes "d")
        × All (λ (q : Receipt). q.device_id ≡ bytes "d" → q.received_at ≤ r.received_at) receipts)
    × (latest_at (bytes "d") (latest_by_device receipts) ≡ none
        → All (λ (r : Receipt). r.device_id ≢ bytes "d") receipts)
latest_by_device_latest_example = latest_by_device_latest receipts (bytes "d")

abbrev subscription : Webhook.Subscription
subscription = record {
  id = bytes "s";
  name = bytes "ops";
  url = bytes "https://ops";
  secret = bytes "x";
  event_types = bytes "*" ∷ [];
  enabled = true;
  created_at = 1;
  updated_at = 1;
}

abbrev world : World millionths
world = record {
  store = record {
    devices = [];
    groups = [];
    configurations = [];
    rules = [];
    rollouts = [];
    targets = [];
    receipts = [];
    audit_events = [];
    subscriptions = subscription ∷ [];
    deliveries = delivery 1 ∷ [];
  };
  readings = 0;
  made = 0;
  calls = 0;
}

abbrev env : Env
env = record {
  clock = λ n. n + 10;
  new_id = λ n. suc n ∷ [];
  fails = λ n. false;
  encode = λ p. some [];
  ceiling = λ a b. pos 1;
  percentage = λ n p. pos 1;
  like = λ value pattern. true;
  sha256 = λ s. s;
  parse_url = λ s. none;
}

-- A client whose requests are all answered with an error of the server.
abbrev client : Client
client = record {
  post = λ s d at. answered 503;
  unexpected = λ code. bytes "unexpected status";
  max_attempts = pos 3;
}

process-IsBounded_example :
    All (IsBounded (pos 3)) (process millionths env client (pos 10) world).1.store.deliveries
process-IsBounded_example = process-IsBounded millionths env client world (pos 10) ((λ d. refl), tt)
