-- ===== src/Service/Keeps/Rollouts.antt =====
-- The operations on rollouts keep what looks at no table but that of the configurations.
use edge_rollout_control_ser.Base.{
  ℕ, Option, none, some, List, [], ◌∷◌, Str, Result, ok, err, Result-cases, Bool-cases, suc, inl,
  inr, arith,
}
use edge_rollout_control_ser.Base.Int.{ℤ}
use edge_rollout_control_ser.Base.Time.{Time}
use edge_rollout_control_ser.Base.Floats.{Floats}
use edge_rollout_control_ser.Rollout
use edge_rollout_control_ser.Rollout.{Rollout, Target}
use edge_rollout_control_ser.Device.{Device}
use edge_rollout_control_ser.Store.{Store, Error}
use edge_rollout_control_ser.Store.Rows
use edge_rollout_control_ser.Store.Creation.{insert_rollout, insert_target}
use edge_rollout_control_ser.Service.{Env, World, Run, execute}
use edge_rollout_control_ser.Service.Steps.{
  start_rollout, pause_rollout, cancel_rollout, rollback_rollout,
}
use edge_rollout_control_ser.Service.Reconcile.{
  decide_pause, auto_pause, wait_for_batch, finish_rollback, next_batch, complete, settle,
  pause_or_settle, reconcile_open, reconcile_rollout, process_all, process_runnable_rollouts,
}
use edge_rollout_control_ser.Service.Creation.{
  CreateRolloutCommand, put, load_all, resolve_targets, insert_targets, commit, transaction,
  store_rollout, make_targets, create_rollout,
}
use edge_rollout_control_ser.Service.Keeps.{Keeps, keeping, Keeps-table, Keeps-pure, Keeps-fail}
use edge_rollout_control_ser.Service.Keeps.Receiving.{Keeps-activate_batch, Keeps-roll_back_all}
use edge_rollout_control_ser.Service.Keeps.Beside.{IsBeside}

pub record IsApart {f : Floats} (I : Store f → Type 0) : Type 0 where
  pub beside : IsBeside I
  pub rollouts : (s : Store f) (x : List Rollout) → I s → I (record s { rollouts = x })

module _ {f : Floats} {I : Store f → Type 0} (a : IsApart I) (e : Env) where
  Keeps-change_rollout : (r : Rollout) → Keeps I (execute f e (λ s. Rows.update_rollout f s r))
  unfolding Rows.update_rollout
  Keeps-change_rollout r =
      Keeps-table e _ (λ s. s.rollouts) (λ s x. record s { rollouts = x }) a.rollouts
        (λ s u h. ground arith)

  pub Keeps-start_rollout : (id actor : Str) → Keeps I (start_rollout f e id actor)
  unfolding start_rollout
  Keeps-start_rollout id actor =
      search (keeping, a.beside.aside, Keeps-activate_batch a.beside, Keeps-change_rollout) depth 30

  pub Keeps-pause_rollout : (id reason actor : Str) → Keeps I (pause_rollout f e id reason actor)
  unfolding pause_rollout
  Keeps-pause_rollout id reason actor =
      search (keeping, a.beside.aside, Keeps-change_rollout) depth 30

  pub Keeps-cancel_rollout : (id actor : Str) → Keeps I (cancel_rollout f e id actor)
  unfolding cancel_rollout
  Keeps-cancel_rollout id actor = search (keeping, a.beside.aside, Keeps-change_rollout) depth 30

  pub Keeps-rollback_rollout : (id actor : Str) → Keeps I (rollback_rollout f e id actor)
  unfolding rollback_rollout
  Keeps-rollback_rollout id actor =
      search (keeping, a.beside.aside, Keeps-roll_back_all a.beside, Keeps-change_rollout) depth 30

  Keeps-decide_pause : (r : Rollout) → Keeps I (decide_pause f e r)
  unfolding decide_pause
  Keeps-decide_pause r = search keeping depth 20

  Keeps-auto_pause : (r : Rollout) (reason : Str) → Keeps I (auto_pause f e r reason)
  unfolding auto_pause
  Keeps-auto_pause r reason = search (keeping, a.beside.aside, Keeps-change_rollout) depth 20

  Keeps-settle : (r : Rollout) (total done : ℕ) → Keeps I (settle f e r total done)
  unfolding settle wait_for_batch finish_rollback next_batch complete
  Keeps-settle r total done =
      search (keeping, a.beside.aside, Keeps-activate_batch a.beside, Keeps-change_rollout) depth 30

  Keeps-pause_or_settle :
      (r : Rollout) (total done : ℕ) (o : Option Str) → Keeps I (pause_or_settle f e r total done o)
  Keeps-pause_or_settle r total done (some reason) = Keeps-auto_pause r reason
  Keeps-pause_or_settle r total done none = Keeps-settle r total done

  pub Keeps-reconcile_rollout : (id : Str) → Keeps I (reconcile_rollout f e id)
  unfolding reconcile_rollout reconcile_open
  Keeps-reconcile_rollout id = search (keeping, Keeps-decide_pause, Keeps-pause_or_settle) depth 30

  Keeps-process_all : (rs : List Rollout) → Keeps I (process_all f e rs)
  unfolding process_all
  Keeps-process_all [] = Keeps-pure tt
  Keeps-process_all (r ∷ rs) =
      let rest = Keeps-process_all rs in
      search (keeping, Keeps-start_rollout, Keeps-reconcile_rollout) depth 20

  pub Keeps-process_runnable_rollouts : (limit : ℤ) → Keeps I (process_runnable_rollouts f e limit)
  unfolding process_runnable_rollouts
  Keeps-process_runnable_rollouts limit = search (keeping, Keeps-process_all) depth 20

  Keeps-load_all : (ids : List Str) (m : List (Str × Device)) → Keeps I (load_all f e ids m)
  unfolding load_all
  Keeps-load_all [] m = Keeps-pure m
  Keeps-load_all (id ∷ ids) m =
      let rest = λ (d : Device). Keeps-load_all ids (put id d m) in search (keeping, rest) depth 20

  Keeps-insert_rollout : (r : Rollout) → Keeps I (execute f e (λ s. insert_rollout f s r))
  unfolding insert_rollout
  Keeps-insert_rollout r =
      Keeps-table e _ (λ s. s.rollouts) (λ s x. record s { rollouts = x }) a.rollouts
        (λ s u h. ground arith)

  Keeps-insert_target : (t : Target) → Keeps I (execute f e (λ s. insert_target f s t))
  unfolding insert_target
  Keeps-insert_target t =
      Keeps-table e _ (λ s. s.targets) (λ s x. record s { targets = x }) a.beside.targets
        (λ s u h. ground arith)

  Keeps-insert_targets : (ts : List Target) → Keeps I (insert_targets f e ts)
  unfolding insert_targets
  Keeps-insert_targets [] = Keeps-pure tt
  Keeps-insert_targets (t ∷ ts) =
      let rest = Keeps-insert_targets ts in search (keeping, Keeps-insert_target) depth 20

  Keeps-commit :
      {A : Type 0} (before : Store f) (x : Result Error A × World f)
      → I before
      → I x.1.store
      → I (commit f e before x).1.store
  Keeps-commit before (err x, w) old new = old
  Keeps-commit before (ok r, w) old new = elim (Bool-cases (e.fails w.calls)) [
    | inl down ↦ rw down old
    | inr up ↦ rw up new
  ]

  Keeps-transaction : {A : Type 0} (m : Run f A) → Keeps I m → Keeps I (transaction f e m)
  unfolding transaction
  Keeps-transaction m k = record {
    keeps = record {
      leads = λ w i. elim (Bool-cases (e.fails w.calls)) [
        | inl down ↦ rw down i
        | inr up ↦
            rw up (Keeps-commit w.store _ i (k.keeps.leads (record w { calls = suc w.calls }) i))
      ];
    };
  }

  Keeps-store_rollout : (r : Rollout) (ts : List Target) → Keeps I (store_rollout f e r ts)
  unfolding store_rollout
  Keeps-store_rollout r ts = elim (Result-cases (Rollout.validate r)) [
    | inr (x, bad) ↦ rw (bad, store_rollout) (Keeps-fail _)
    | inl (u, good) ↦
        rw (good, store_rollout)
          (search (keeping, Keeps-transaction, Keeps-insert_rollout, Keeps-insert_targets) depth 20)
  ]

  Keeps-make_targets :
      (r : Rollout) (at : Time) (index : ℕ) (ds : List Device)
      → Keeps I (make_targets f e r at index ds)
  unfolding make_targets
  Keeps-make_targets r at index [] = Keeps-pure []
  Keeps-make_targets r at index (d ∷ ds) =
      let rest = Keeps-make_targets r at (suc index) ds in search keeping depth 20

  pub Keeps-create_rollout :
      (c : CreateRolloutCommand) (actor : Str) → Keeps I (create_rollout f e c actor)
  unfolding create_rollout resolve_targets
  Keeps-create_rollout c actor =
      search (keeping, a.beside.aside, Keeps-load_all, Keeps-make_targets, Keeps-store_rollout)
        depth 40
