-- ===== src/Service/Edges/Sequences.antt =====
-- Sequences of operations and the statuses of rollouts.
use edge_rollout_control_ser.Base.{
  Bool, true, ◌&&◌, str_eq_refl, ap, sym, ◌≡◌, ◌⊎◌, refl, subst, Option, none, some, List, [], ◌∷◌,
  ◌++◌, Str, str_eq, Result, ok, err, Bool-cases, inl, inr, arith,
}
use edge_rollout_control_ser.Base.Floats.{Floats}
use edge_rollout_control_ser.Rollout.{Status, cancelled, rolled_back}
use edge_rollout_control_ser.Service.{Env, World}
use edge_rollout_control_ser.Service.Runs.{
  Op, start, cancel, roll_back, pause, reconcile, pull, process, submit, add_device, change_device,
  beat, add_group, add_configuration, publish, deprecate, add_rule, add_subscription, add_rollout,
  run_op, run_all, Trace, run_all-Trace,
}
use edge_rollout_control_ser.Service.Edges.{
  Edges, steps, Moves, stay, begin, move, Reached, status_at,
}
use edge_rollout_control_ser.Service.Edges.Reading.{On, beside}
use edge_rollout_control_ser.Service.Edges.Kinds.{
  edges_of, starts, pauses, cancels, rolls_back, reconciles,
}
use edge_rollout_control_ser.Service.Edges.Operations.{
  From-start_rollout, From-pause_rollout, From-cancel_rollout, From-rollback_rollout,
}
use edge_rollout_control_ser.Service.Edges.Reconciling.{
  From-reconcile_rollout, From-process_runnable_rollouts,
}
use edge_rollout_control_ser.Rollout.{Rollout, draft}
use edge_rollout_control_ser.Store.{Error, Store}
use edge_rollout_control_ser.Service.Creation.Created.{CreatesOrNot, create_rollout-CreatesOrNot}
use edge_rollout_control_ser.Service.Creation.Storing.{stored_rollout}
use edge_rollout_control_ser.Service.Keeps.Beside.{
  IsBeside, Keeps-create_device, Keeps-update_device, Keeps-heartbeat, Keeps-create_group,
  Keeps-create_configuration, Keeps-publish_configuration, Keeps-deprecate_configuration,
  Keeps-create_rule, Keeps-create_subscription,
}
use edge_rollout_control_ser.Service.Keeps.Receiving.{
  Keeps-pull_pending_configuration, Keeps-submit_receipt,
}

some-inj : {a b : Status} → some a ≡ some b → a ≡ b
some-inj e = cc e

-- A new row takes no other's place.
status_at-append :
    (edges : Edges) (rs : List Rollout) (r : Rollout) (k : Str) (σ : Option Status)
    → edges k none r.status ≡ true
    → Moves edges k σ (status_at rs k)
    → Moves edges k σ (status_at (rs ++ r ∷ []) k)
unfolding status_at
status_at-append edges [] r k σ new m = elim (Bool-cases (str_eq r.id k)) [
  | inl here ↦ rw here (begin r.status m new)
  | inr away ↦ rw away m
]
status_at-append edges (x ∷ rs) r k σ new m = elim (Bool-cases (str_eq x.id k)) [
  | inl here ↦ rw here (rw here at m)
  | inr away ↦ rw away (status_at-append edges rs r k σ new (rw away at m))
]

created-Reached :
    {f : Floats} (edges : Edges) (σ : Str → Option Status) (before : Store f)
    (x : Result Error Rollout × World f)
    → ((k : Str) → edges k none draft ≡ true)
    → CreatesOrNot before x
    → Reached edges σ before.rollouts
    → Reached edges σ x.1.store.rollouts
created-Reached edges σ before (ok r, w) may c i k = rw (c.rollouts_after) (
    status_at-append edges before.rollouts (stored_rollout r) k (σ k) (rw c.is_draft (may k)) (i k))
created-Reached edges σ before (err x, w) may c i k = rw c (i k)

-- An operation on the rollout k may make all changes of its kind there.
covers :
    (p : Status → Status → Bool) (k : Str) (a b : Status)
    → p a b ≡ true
    → (str_eq k k && p a b) ≡ true
covers p k a b h = rw (str_eq_refl k) h

module _ {f : Floats} (e : Env) (σ : Str → Option Status) where
  kept_beside : (op : Op f) → IsBeside (On {f = f} (Reached (edges_of op) σ))
  kept_beside op = beside (Reached (edges_of op) σ)

  run_op-Reached :
      (op : Op f) (w : World f)
      → Reached (edges_of op) σ w.store.rollouts
      → Reached (edges_of op) σ (run_op f e op w).store.rollouts
  unfolding run_op
  run_op-Reached (start id actor) w i =
      (From-start_rollout e (edges_of {f = f} (start id actor)) σ id actor (covers starts id)).leads
        w i
  run_op-Reached (pause id reason actor) w i =
      (From-pause_rollout e (edges_of {f = f} (pause id reason actor)) σ id reason actor
          (covers pauses id)).leads
        w i
  run_op-Reached (cancel id actor) w i =
      (From-cancel_rollout e (edges_of {f = f} (cancel id actor)) σ id actor
          (covers cancels id)).leads
        w i
  run_op-Reached (roll_back id actor) w i =
      (From-rollback_rollout e (edges_of {f = f} (roll_back id actor)) σ id actor
          (covers rolls_back id)).leads
        w i
  run_op-Reached (reconcile id) w i =
      (From-reconcile_rollout e (edges_of {f = f} (reconcile id)) σ id (covers reconciles id)).leads
        w i
  run_op-Reached (process limit) w i =
      (From-process_runnable_rollouts e (edges_of {f = f} (process limit)) σ limit
          (λ k a b h. ground arith) (λ k a b h. ground arith)).leads
        w i
  run_op-Reached (pull device) w i =
      (Keeps-pull_pending_configuration (kept_beside (pull device)) e device).keeps.leads w i
  run_op-Reached (submit device c) w i =
      (Keeps-submit_receipt (kept_beside (submit device c)) e c
          (record {
            keeps =
                From-reconcile_rollout e (edges_of {f = f} (submit device c)) σ c.rollout_id
                  (covers reconciles c.rollout_id);
          })
          device).keeps.leads
        w i
  run_op-Reached (add_device c actor) w i =
      (Keeps-create_device (kept_beside (add_device c actor)) e c actor).keeps.leads w i
  run_op-Reached (change_device id c actor) w i =
      (Keeps-update_device (kept_beside (change_device id c actor)) e id c actor).keeps.leads w i
  run_op-Reached (beat id c) w i =
      (Keeps-heartbeat (kept_beside (beat id c)) e id c).keeps.leads w i
  run_op-Reached (add_group c actor) w i =
      (Keeps-create_group (kept_beside (add_group c actor)) e c actor).keeps.leads w i
  run_op-Reached (add_configuration c actor) w i =
      (Keeps-create_configuration (kept_beside (add_configuration c actor)) e (λ s x i. i) c
          actor).keeps.leads
        w i
  run_op-Reached (publish id actor) w i =
      (Keeps-publish_configuration (kept_beside (publish id actor)) e (λ s x i. i) id
          actor).keeps.leads
        w i
  run_op-Reached (deprecate id actor) w i =
      (Keeps-deprecate_configuration (kept_beside (deprecate id actor)) e (λ s x i. i) id
          actor).keeps.leads
        w i
  run_op-Reached (add_rule visit c actor) w i =
      (Keeps-create_rule (kept_beside (add_rule visit c actor)) e visit c actor).keeps.leads w i
  run_op-Reached (add_subscription c actor) w i =
      (Keeps-create_subscription (kept_beside (add_subscription c actor)) e c actor).keeps.leads w i
  run_op-Reached (add_rollout c actor) w i =
      created-Reached (edges_of {f = f} (add_rollout c actor)) σ w.store _ (λ k. refl)
        (create_rollout-CreatesOrNot f e c actor w) i

-- Through any sequence of the operations of the service that change its tables, with any failures of
-- the database in between, the status of a rollout changes at each operation only by the changes of
-- that operation. Creating a rollout leads from none to draft; starting this one leads from draft or
-- paused to running, pausing it from running to paused, cancelling it from draft, scheduled, running,
-- paused or rolling_back to cancelled, rolling it back from paused, failed or completed to
-- rolling_back, and reconciling it, or a receipt for it, from running to completed or paused and from
-- rolling_back to rolled_back or paused. A run of the scheduler may make any number of the changes of
-- starting and reconciling. No other operation changes the status, nor one that names another rollout.
pub run_all-Moves :
    (f : Floats) (e : Env) (ops : List (Op f)) (w : World f) (id : Str)
    → Trace
        (λ op. Moves (edges_of op) id)
        ops
        (status_at w.store.rollouts id)
        (status_at (run_all f e ops w).store.rollouts id)
run_all-Moves f e ops w id =
    run_all-Trace f e (λ op. Moves (edges_of op) id) (λ v. status_at v.store.rollouts id)
      (λ op v. run_op-Reached e (status_at v.store.rollouts) op v (λ k. stay) id) ops w

-- No operation leads out of these statuses.
no_way_out :
    {f : Floats} (op : Op f) (id : Str) (s c : Status)
    → (s ≡ cancelled) ⊎ (s ≡ rolled_back)
    → steps (edges_of op) id s c ≡ true
    → c ≡ s
no_way_out op id s c is_final h = ground arith

final :
    {f : Floats} (op : Op f) (id : Str) (s : Status) (b : Option Status)
    → (s ≡ cancelled) ⊎ (s ≡ rolled_back)
    → Moves (edges_of op) id (some s) b
    → b ≡ some s
final op id s b is_final stay = refl
final op id s b is_final (begin c m h) =
    let same = final op id s none is_final m in absurd (cc same)
final op id s b is_final (move {b = m} c moves h) =
    let same = final op id s (some m) is_final moves in
    let m_is_s : m ≡ s = some-inj same in
    ap some
      (no_way_out op id s c is_final (subst (λ z. steps (edges_of op) id z c ≡ true) m_is_s h))

all_final :
    {f : Floats} (ops : List (Op f)) (id : Str) (s : Status) (b : Option Status)
    → (s ≡ cancelled) ⊎ (s ≡ rolled_back)
    → Trace (λ op. Moves (edges_of op) id) ops (some s) b
    → b ≡ some s
all_final [] id s b is_final h = sym h
all_final (op ∷ ops) id s b is_final (m, moves, rest) = all_final ops id s b is_final (
    subst (λ z. Trace (λ op. Moves (edges_of op) id) ops z b) (final op id s m is_final moves) rest)

-- A rollout that is cancelled or rolled back keeps that status through any sequence of operations.
pub run_all_absorbs :
    (f : Floats) (e : Env) (ops : List (Op f)) (w : World f) (id : Str) (s : Status)
    → (s ≡ cancelled) ⊎ (s ≡ rolled_back)
    → status_at w.store.rollouts id ≡ some s
    → status_at (run_all f e ops w).store.rollouts id ≡ some s
run_all_absorbs f e ops w id s is_final at = all_final ops id s _ is_final (
    subst
      (λ o.
        Trace (λ op. Moves (edges_of op) id) ops o
          (status_at (run_all f e ops w).store.rollouts id))
      at (run_all-Moves f e ops w id))
