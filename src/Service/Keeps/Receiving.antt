-- ===== src/Service/Keeps/Receiving.antt =====
-- Writing targets, and what devices ask and report, keeps what does not look at the tables that are
-- written.
use edge_rollout_control_ser.Base.{
  ℕ, ◌≡◌, subst, Option, none, List, [], ◌∷◌, Str, Result, ok, err, arith,
}
use edge_rollout_control_ser.Base.Time.{Time}
use edge_rollout_control_ser.Base.Floats.{Floats}
use edge_rollout_control_ser.Rollout.{Rollout, Target}
use edge_rollout_control_ser.Receipt.{Receipt}
use edge_rollout_control_ser.Device.{Device}
use edge_rollout_control_ser.Store.{
  Store, Error, repository_not_found, invalid_entity, invalid_state, validation, invalid_argument,
  not_found, conflict, constraint, database, delivery_failed, panic,
}
use edge_rollout_control_ser.Store.Targets.{update_target}
use edge_rollout_control_ser.Store.Receipts.{create_receipt}
use edge_rollout_control_ser.Service.{Env, Run, attempt, execute, execute_for}
use edge_rollout_control_ser.Service.Triples.{From-execute_for}
use edge_rollout_control_ser.Service.Steps.{activate_all, activate_batch, roll_back_all}
use edge_rollout_control_ser.Service.Reconcile.{reconcile_rollout}
use edge_rollout_control_ser.Service.Reports.{
  SubmitReceiptCommand, deliver, pull_one, pull_from, pull_pending_configuration, set_current,
  note_configuration, accept_receipt, submit_receipt, PendingConfiguration,
}
use edge_rollout_control_ser.Service.Keeps.{
  Keeps, keeping, Keeps-attempt, Keeps-table, Keeps-pure, Keeps-fail,
}
use edge_rollout_control_ser.Service.Keeps.Beside.{IsBeside, Keeps-change_device}

module _ {f : Floats} {I : Store f → Type 0} (b : IsBeside I) (e : Env) where
  Keeps-change_target : (t : Target) → Keeps I (execute f e (λ s. update_target f s t))
  unfolding update_target
  Keeps-change_target t =
      Keeps-table e _ (λ s. s.targets) (λ s x. record s { targets = x }) b.targets
        (λ s u h. ground arith)

  Keeps-insert_receipt : (r : Receipt) → Keeps I (execute_for f e (λ s. create_receipt f s r))
  unfolding create_receipt
  Keeps-insert_receipt r = record {
    keeps =
        From-execute_for e I I _ (λ s i. i)
          λ inserted s t i h.
            let is_t : record s { receipts = t.receipts } ≡ t = ground arith in
            subst I is_t (b.receipts s t.receipts i);
  }

  Keeps-activate_all : (at : Time) (ts : List Target) → Keeps I (activate_all f e at ts)
  unfolding activate_all
  Keeps-activate_all at [] = Keeps-pure tt
  Keeps-activate_all at (t ∷ ts) =
      let rest = Keeps-activate_all at ts in search (keeping, Keeps-change_target) depth 20

  pub Keeps-activate_batch : (id : Str) (batch : ℕ) → Keeps I (activate_batch f e id batch)
  unfolding activate_batch
  Keeps-activate_batch id batch = search (keeping, Keeps-activate_all) depth 20

  pub Keeps-roll_back_all :
      (configuration : Str) (at : Time) (ts : List Target)
      → Keeps I (roll_back_all f e configuration at ts)
  unfolding roll_back_all
  Keeps-roll_back_all configuration at [] = Keeps-pure tt
  Keeps-roll_back_all configuration at (t ∷ ts) =
      let rest = Keeps-roll_back_all configuration at ts in
      search (keeping, Keeps-change_target) depth 20

  Keeps-deliver : (r : Rollout) (t : Target) → Keeps I (deliver f e r t)
  unfolding deliver
  Keeps-deliver r t = search (keeping, Keeps-change_target) depth 20

  Keeps-pull_one :
      (r : Rollout) (rest : Run f (Option PendingConfiguration)) (x : Result Error Target)
      → Keeps I rest
      → Keeps I (pull_one f e r rest x)
  Keeps-pull_one r rest (ok t) k = search (keeping, Keeps-deliver) depth 20
  Keeps-pull_one r rest (err not_found) k = k
  Keeps-pull_one r rest (err repository_not_found) k = Keeps-fail _
  Keeps-pull_one r rest (err invalid_entity) k = Keeps-fail _
  Keeps-pull_one r rest (err invalid_state) k = Keeps-fail _
  Keeps-pull_one r rest (err (validation field)) k = Keeps-fail _
  Keeps-pull_one r rest (err invalid_argument) k = Keeps-fail _
  Keeps-pull_one r rest (err conflict) k = Keeps-fail _
  Keeps-pull_one r rest (err constraint) k = Keeps-fail _
  Keeps-pull_one r rest (err database) k = Keeps-fail _
  Keeps-pull_one r rest (err delivery_failed) k = Keeps-fail _
  Keeps-pull_one r rest (err panic) k = Keeps-fail _

  Keeps-pull_from : (device : Str) (rs : List Rollout) → Keeps I (pull_from f e device rs)
  unfolding pull_from
  Keeps-pull_from device [] = Keeps-pure none
  Keeps-pull_from device (r ∷ rs) =
      let rest = Keeps-pull_from device rs in search (keeping, Keeps-pull_one) depth 20

  pub Keeps-pull_pending_configuration :
      (device : Str) → Keeps I (pull_pending_configuration f e device)
  unfolding pull_pending_configuration
  Keeps-pull_pending_configuration device = search (keeping, Keeps-pull_from) depth 20

  Keeps-set_current :
      (c : SubmitReceiptCommand) (at : Time) (x : Result Error Device)
      → Keeps I (set_current f e c at x)
  Keeps-set_current c at (err x) = Keeps-pure tt
  Keeps-set_current c at (ok d) = search (keeping, Keeps-change_device b) depth 20

  -- A receipt that is new reconciles its rollout.
  module _ (c : SubmitReceiptCommand)
      (reconcile : Keeps I (reconcile_rollout f e c.rollout_id)) where
    reconciled : Keeps I (attempt (reconcile_rollout f e c.rollout_id))
    reconciled = Keeps-attempt reconcile

    Keeps-accept_receipt :
        (device : Str) (t : Target) (r : Receipt) (at : Time)
        → Keeps I (accept_receipt f e device c t r at)
    unfolding accept_receipt note_configuration
    Keeps-accept_receipt device t r at =
        search (keeping, b.aside, Keeps-change_target, Keeps-set_current, reconciled) depth 30

    pub Keeps-submit_receipt : (device : Str) → Keeps I (submit_receipt f e device c)
    unfolding submit_receipt
    Keeps-submit_receipt device =
        search (keeping, Keeps-insert_receipt, Keeps-accept_receipt) depth 30
