-- ===== src/Service/Lifecycle/Sequences.antt =====
-- The life of a configuration through sequences of operations.
use edge_rollout_control_ser.Base.{
  List, ◌≡◌, refl, true, false, ◌&&◌, Option, none, some, Str, str_eq, arith,
}
use edge_rollout_control_ser.Base.Floats.{Floats}
use edge_rollout_control_ser.Configuration.{
  Configuration, Status, draft, published, deprecated, status_eq,
}
use edge_rollout_control_ser.Service.{Env, World}
use edge_rollout_control_ser.Service.Runs.{
  Op, start, cancel, roll_back, pause, reconcile, pull, process, submit, add_device, change_device,
  beat, add_group, add_configuration, publish, deprecate, add_rule, add_subscription, add_rollout,
  run_op, run_all, Trace, run_all-Trace,
}
use edge_rollout_control_ser.Service.Keeps.Beside.{
  Keeps-create_device, Keeps-update_device, Keeps-heartbeat, Keeps-create_group, Keeps-create_rule,
  Keeps-create_subscription,
}
use edge_rollout_control_ser.Service.Keeps.Rollouts.{
  Keeps-start_rollout, Keeps-pause_rollout, Keeps-cancel_rollout, Keeps-rollback_rollout,
  Keeps-reconcile_rollout, Keeps-process_runnable_rollouts, Keeps-create_rollout,
}
use edge_rollout_control_ser.Service.Keeps.Receiving.{
  Keeps-pull_pending_configuration, Keeps-submit_receipt,
}
use edge_rollout_control_ser.Service.Lifecycle.{Edges, steps, Grown, Grown-refl}
use edge_rollout_control_ser.Service.Lifecycle.Operations.{
  KeptFrom, beside, apart, Keeps-create_configuration, Keeps-publish_configuration,
  Keeps-deprecate_configuration,
}

-- For each operation, the changes that it may make to the configuration `id`.
abbrev pub edges_of : {f : Floats} → Op f → Edges
edges_of (add_configuration c actor) id none b = status_eq b draft
edges_of op id none b = false
edges_of (publish k actor) id (some a) b =
    str_eq k id && (status_eq a draft && status_eq b published)
edges_of (deprecate k actor) id (some a) b =
    str_eq k id && (status_eq a published && status_eq b deprecated)
edges_of op id (some a) b = false

publishes :
    (f : Floats) (k actor id : Str) (a : Option Status)
    → str_eq k id ≡ true
    → steps (edges_of {f = f} (publish k actor)) id a draft ≡ true
    → steps (edges_of {f = f} (publish k actor)) id a published ≡ true
publishes f k actor id none same h = absurd cc
publishes f k actor id (some a) same h = ground arith

deprecates :
    (f : Floats) (k actor id : Str) (a : Option Status)
    → str_eq k id ≡ true
    → steps (edges_of {f = f} (deprecate k actor)) id a published ≡ true
    → steps (edges_of {f = f} (deprecate k actor)) id a deprecated ≡ true
deprecates f k actor id none same h = absurd cc
deprecates f k actor id (some a) same h = ground arith

module _ {f : Floats} (e : Env) (old : List Configuration) where
  run_op-KeptFrom :
      (op : Op f) (w : World f)
      → KeptFrom (edges_of op) old w.store
      → KeptFrom (edges_of op) old (run_op f e op w).store
  unfolding run_op
  run_op-KeptFrom (start id actor) w i =
      (Keeps-start_rollout (apart (edges_of {f = f} (start id actor)) old) e id actor).keeps.leads w
        i
  run_op-KeptFrom (pause id reason actor) w i =
      (Keeps-pause_rollout (apart (edges_of {f = f} (pause id reason actor)) old) e id reason
          actor).keeps.leads
        w i
  run_op-KeptFrom (cancel id actor) w i =
      (Keeps-cancel_rollout (apart (edges_of {f = f} (cancel id actor)) old) e id actor).keeps.leads
        w i
  run_op-KeptFrom (roll_back id actor) w i =
      (Keeps-rollback_rollout (apart (edges_of {f = f} (roll_back id actor)) old) e id
          actor).keeps.leads
        w i
  run_op-KeptFrom (reconcile id) w i =
      (Keeps-reconcile_rollout (apart (edges_of {f = f} (reconcile id)) old) e id).keeps.leads w i
  run_op-KeptFrom (process limit) w i =
      (Keeps-process_runnable_rollouts (apart (edges_of {f = f} (process limit)) old) e
          limit).keeps.leads
        w i
  run_op-KeptFrom (pull device) w i =
      (Keeps-pull_pending_configuration (beside (edges_of {f = f} (pull device)) old) e
          device).keeps.leads
        w i
  run_op-KeptFrom (submit device c) w i =
      (Keeps-submit_receipt (beside (edges_of {f = f} (submit device c)) old) e c
          (Keeps-reconcile_rollout (apart (edges_of {f = f} (submit device c)) old) e c.rollout_id)
          device).keeps.leads
        w i
  run_op-KeptFrom (add_device c actor) w i =
      (Keeps-create_device (beside (edges_of {f = f} (add_device c actor)) old) e c
          actor).keeps.leads
        w i
  run_op-KeptFrom (change_device id c actor) w i =
      (Keeps-update_device (beside (edges_of {f = f} (change_device id c actor)) old) e id c
          actor).keeps.leads
        w i
  run_op-KeptFrom (beat id c) w i =
      (Keeps-heartbeat (beside (edges_of {f = f} (beat id c)) old) e id c).keeps.leads w i
  run_op-KeptFrom (add_group c actor) w i =
      (Keeps-create_group (beside (edges_of {f = f} (add_group c actor)) old) e c actor).keeps.leads
        w i
  run_op-KeptFrom (add_configuration c actor) w i =
      (Keeps-create_configuration (edges_of {f = f} (add_configuration c actor)) old e c actor
          (λ k. refl)).keeps.leads
        w i
  run_op-KeptFrom (publish id actor) w i =
      (Keeps-publish_configuration (edges_of {f = f} (publish id actor)) old e id actor
          (publishes f id actor)).keeps.leads
        w i
  run_op-KeptFrom (deprecate id actor) w i =
      (Keeps-deprecate_configuration (edges_of {f = f} (deprecate id actor)) old e id actor
          (deprecates f id actor)).keeps.leads
        w i
  run_op-KeptFrom (add_rule visit c actor) w i =
      (Keeps-create_rule (beside (edges_of {f = f} (add_rule visit c actor)) old) e visit c
          actor).keeps.leads
        w i
  run_op-KeptFrom (add_subscription c actor) w i =
      (Keeps-create_subscription (beside (edges_of {f = f} (add_subscription c actor)) old) e c
          actor).keeps.leads
        w i
  run_op-KeptFrom (add_rollout c actor) w i =
      (Keeps-create_rollout (apart (edges_of {f = f} (add_rollout c actor)) old) e c
          actor).keeps.leads
        w i

-- Through any sequence of the operations of the service that change its tables, with any failures of
-- the database in between, each operation leaves a stored configuration stored under its id, with its
-- name, version, format, content, digest, models, variables and creation as they were. Publishing it
-- may lead it from draft to published, deprecating it from published to deprecated, no other
-- operation changes its status, nor one that names another configuration; only creating one stores
-- one under a new id, and in draft.
pub run_all-Grown :
    (f : Floats) (e : Env) (ops : List (Op f)) (w : World f)
    → Trace
        (λ op. Grown (edges_of op))
        ops
        w.store.configurations
        (run_all f e ops w).store.configurations
run_all-Grown f e ops w =
    run_all-Trace f e (λ op. Grown (edges_of op)) (λ v. v.store.configurations)
      (λ op v.
        run_op-KeptFrom e v.store.configurations op v
          (Grown-refl (edges_of op) v.store.configurations))
      ops w
