-- ===== src/Service/Fails/Operations.antt =====
-- The steps and the reconciliation of a rollout fail with other errors only.
use edge_rollout_control_ser.Base.{ℕ, Option, none, some, List, [], ◌∷◌, Str}
use edge_rollout_control_ser.Base.Int.{ℤ}
use edge_rollout_control_ser.Base.Time.{Time}
use edge_rollout_control_ser.Base.Floats.{Floats}
use edge_rollout_control_ser.Rollout.{Rollout, Target}
use edge_rollout_control_ser.Service.{Env}
use edge_rollout_control_ser.Service.Steps.{
  activate_all, activate_batch, start_rollout, pause_rollout, cancel_rollout, roll_back_all,
  rollback_rollout,
}
use edge_rollout_control_ser.Service.Reconcile.{
  decide_pause, auto_pause, wait_for_batch, finish_rollback, next_batch, complete, settle,
  pause_or_settle, reconcile_open, reconcile_rollout, process_all, process_runnable_rollouts,
}
use edge_rollout_control_ser.Service.Fails.{FailsOther, failing, FailsOther-pure}
use edge_rollout_control_ser.Service.Fails.Statements.{
  FailsOther-get_rollout, FailsOther-update_rollout, FailsOther-update_target,
}

module _ {f : Floats} (e : Env) where
  FailsOther-activate_all : (at : Time) (ts : List Target) → FailsOther (activate_all f e at ts)
  unfolding activate_all
  FailsOther-activate_all at [] = FailsOther-pure tt
  FailsOther-activate_all at (t ∷ ts) =
      let rest = FailsOther-activate_all at ts in
      search (failing, FailsOther-update_target) depth 20

  FailsOther-activate_batch : (id : Str) (batch : ℕ) → FailsOther (activate_batch f e id batch)
  unfolding activate_batch
  FailsOther-activate_batch id batch = search (failing, FailsOther-activate_all) depth 20

  FailsOther-roll_back_all :
      (configuration : Str) (at : Time) (ts : List Target)
      → FailsOther (roll_back_all f e configuration at ts)
  unfolding roll_back_all
  FailsOther-roll_back_all configuration at [] = FailsOther-pure tt
  FailsOther-roll_back_all configuration at (t ∷ ts) =
      let rest = FailsOther-roll_back_all configuration at ts in
      search (failing, FailsOther-update_target) depth 20

  pub FailsOther-start_rollout : (id actor : Str) → FailsOther (start_rollout f e id actor)
  unfolding start_rollout
  FailsOther-start_rollout id actor =
      search (failing, FailsOther-get_rollout, FailsOther-activate_batch, FailsOther-update_rollout)
        depth 30

  pub FailsOther-pause_rollout :
      (id reason actor : Str) → FailsOther (pause_rollout f e id reason actor)
  unfolding pause_rollout
  FailsOther-pause_rollout id reason actor =
      search (failing, FailsOther-get_rollout, FailsOther-update_rollout) depth 30

  pub FailsOther-cancel_rollout : (id actor : Str) → FailsOther (cancel_rollout f e id actor)
  unfolding cancel_rollout
  FailsOther-cancel_rollout id actor =
      search (failing, FailsOther-get_rollout, FailsOther-update_rollout) depth 30

  pub FailsOther-rollback_rollout : (id actor : Str) → FailsOther (rollback_rollout f e id actor)
  unfolding rollback_rollout
  FailsOther-rollback_rollout id actor =
      search (failing, FailsOther-get_rollout, FailsOther-roll_back_all, FailsOther-update_rollout)
        depth 30

  FailsOther-decide_pause : (r : Rollout) → FailsOther (decide_pause f e r)
  unfolding decide_pause
  FailsOther-decide_pause r = search failing depth 20

  FailsOther-auto_pause : (r : Rollout) (reason : Str) → FailsOther (auto_pause f e r reason)
  unfolding auto_pause
  FailsOther-auto_pause r reason = search failing depth 20

  FailsOther-settle : (r : Rollout) (total done : ℕ) → FailsOther (settle f e r total done)
  unfolding settle wait_for_batch finish_rollback next_batch complete
  FailsOther-settle r total done =
      search (failing, FailsOther-activate_batch, FailsOther-update_rollout) depth 30

  FailsOther-pause_or_settle :
      (r : Rollout) (total done : ℕ) (o : Option Str)
      → FailsOther (pause_or_settle f e r total done o)
  FailsOther-pause_or_settle r total done (some reason) = FailsOther-auto_pause r reason
  FailsOther-pause_or_settle r total done none = FailsOther-settle r total done

  pub FailsOther-reconcile_rollout : (id : Str) → FailsOther (reconcile_rollout f e id)
  unfolding reconcile_rollout reconcile_open
  FailsOther-reconcile_rollout id =
      search (failing, FailsOther-get_rollout, FailsOther-decide_pause, FailsOther-pause_or_settle)
        depth 30

  FailsOther-process_all : (rs : List Rollout) → FailsOther (process_all f e rs)
  unfolding process_all
  FailsOther-process_all [] = FailsOther-pure tt
  FailsOther-process_all (r ∷ rs) = let rest = FailsOther-process_all rs in search failing depth 20

  pub FailsOther-process_runnable_rollouts :
      (limit : ℤ) → FailsOther (process_runnable_rollouts f e limit)
  unfolding process_runnable_rollouts
  FailsOther-process_runnable_rollouts limit = search (failing, FailsOther-process_all) depth 20
