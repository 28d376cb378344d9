-- ===== src/Service/Edges/Kinds.antt =====
-- Which change of a rollout's status each operation may make.
use edge_rollout_control_ser.Base.{Bool, false, ◌||◌, ◌&&◌, none, some, str_eq}
use edge_rollout_control_ser.Base.Floats.{Floats}
use edge_rollout_control_ser.Rollout.{
  Status, draft, scheduled, running, paused, completed, failed, cancelled, rolling_back,
  rolled_back, status_eq,
}
use edge_rollout_control_ser.Service.Edges.{Edges}
use edge_rollout_control_ser.Service.Runs.{
  Op, start, cancel, roll_back, pause, reconcile, process, submit, add_rollout,
}

abbrev pub starts : Status → Status → Bool
starts a b = (status_eq a draft || status_eq a paused) && status_eq b running

abbrev pub pauses : Status → Status → Bool
pauses a b = status_eq a running && status_eq b paused

abbrev pub cancels : Status → Status → Bool
cancels a b =
    (status_eq a draft
      || status_eq a scheduled
      || status_eq a running
      || status_eq a paused
      || status_eq a rolling_back)
    && status_eq b cancelled

abbrev pub rolls_back : Status → Status → Bool
rolls_back a b =
    (status_eq a paused || status_eq a failed || status_eq a completed) && status_eq b rolling_back

abbrev pub reconciles : Status → Status → Bool
reconciles a b =
    (status_eq a running && (status_eq b completed || status_eq b paused))
    || (status_eq a rolling_back && (status_eq b rolled_back || status_eq b paused))

abbrev pub creates : Status → Bool
creates b = status_eq b draft

-- For each operation, the changes that it may make to the rollout `id`: of its own rollout only, but
-- for the scheduler, which starts and reconciles any.
abbrev pub edges_of : {f : Floats} → Op f → Edges
edges_of (add_rollout c actor) id none b = creates b
edges_of op id none b = false
edges_of (start k actor) id (some a) b = str_eq k id && starts a b
edges_of (pause k reason actor) id (some a) b = str_eq k id && pauses a b
edges_of (cancel k actor) id (some a) b = str_eq k id && cancels a b
edges_of (roll_back k actor) id (some a) b = str_eq k id && rolls_back a b
edges_of (reconcile k) id (some a) b = str_eq k id && reconciles a b
edges_of (submit device c) id (some a) b = str_eq c.rollout_id id && reconciles a b
edges_of (process limit) id (some a) b = starts a b || reconciles a b
edges_of op id (some a) b = false
