-- ===== src/Service/Fails/Receiving.antt =====
-- What devices ask and report, and the creation of rollouts, fail with other errors only.
use edge_rollout_control_ser.Base.{
  ℕ, suc, Option, none, List, [], ◌∷◌, Str, Result, ok, err, Result-cases, Bool-cases, inl, inr,
}
use edge_rollout_control_ser.Base.Time.{Time}
use edge_rollout_control_ser.Base.Floats.{Floats}
use edge_rollout_control_ser.Rollout
use edge_rollout_control_ser.Rollout.{Rollout, Target}
use edge_rollout_control_ser.Receipt.{Receipt}
use edge_rollout_control_ser.Device.{Device}
use edge_rollout_control_ser.Store.{
  Error, repository_not_found, invalid_entity, invalid_state, validation, invalid_argument,
  not_found, conflict, constraint, database, delivery_failed, panic, Store,
}
use edge_rollout_control_ser.Service.{Env, World, Run}
use edge_rollout_control_ser.Service.Reports.{
  SubmitReceiptCommand, deliver, pull_one, pull_from, pull_pending_configuration, set_current,
  note_configuration, accept_receipt, submit_receipt, PendingConfiguration,
}
use edge_rollout_control_ser.Service.Creation.{
  CreateRolloutCommand, put, load_all, resolve_targets, insert_targets, commit, transaction,
  store_rollout, make_targets, create_rollout,
}
use edge_rollout_control_ser.Service.Fails.{
  FailsOther, EndsOther, failing, FailsOther-pure, FailsOther-fail, database-IsOther,
  invalid_entity-IsOther,
}
use edge_rollout_control_ser.Service.Fails.Statements.{
  FailsOther-get_device, FailsOther-get_configuration, FailsOther-get_target,
  FailsOther-resolve_group, FailsOther-update_target, FailsOther-create_receipt,
  FailsOther-insert_rollout, FailsOther-insert_target,
}

module _ {f : Floats} (e : Env) where
  FailsOther-deliver : (r : Rollout) (t : Target) → FailsOther (deliver f e r t)
  unfolding deliver
  FailsOther-deliver r t =
      search (failing, FailsOther-get_configuration, FailsOther-update_target) depth 20

  -- A target that is not found leads on to the next rollout; other errors are returned.
  FailsOther-pull_one :
      (r : Rollout) (rest : Run f (Option PendingConfiguration)) (x : Result Error Target)
      → FailsOther rest
      → FailsOther (pull_one f e r rest x)
  FailsOther-pull_one r rest (ok t) k = search (failing, FailsOther-deliver) depth 20
  FailsOther-pull_one r rest (err not_found) k = k
  FailsOther-pull_one r rest (err repository_not_found) k = FailsOther-fail _ (λ h. absurd (cc h))
  FailsOther-pull_one r rest (err invalid_entity) k = FailsOther-fail _ (λ h. absurd (cc h))
  FailsOther-pull_one r rest (err invalid_state) k = FailsOther-fail _ (λ h. absurd (cc h))
  FailsOther-pull_one r rest (err (validation field)) k = FailsOther-fail _ (λ h. absurd (cc h))
  FailsOther-pull_one r rest (err invalid_argument) k = FailsOther-fail _ (λ h. absurd (cc h))
  FailsOther-pull_one r rest (err conflict) k = FailsOther-fail _ (λ h. absurd (cc h))
  FailsOther-pull_one r rest (err constraint) k = FailsOther-fail _ (λ h. absurd (cc h))
  FailsOther-pull_one r rest (err database) k = FailsOther-fail _ (λ h. absurd (cc h))
  FailsOther-pull_one r rest (err delivery_failed) k = FailsOther-fail _ (λ h. absurd (cc h))
  FailsOther-pull_one r rest (err panic) k = FailsOther-fail _ (λ h. absurd (cc h))

  FailsOther-pull_from : (device : Str) (rs : List Rollout) → FailsOther (pull_from f e device rs)
  unfolding pull_from
  FailsOther-pull_from device [] = FailsOther-pure none
  FailsOther-pull_from device (r ∷ rs) =
      let rest = FailsOther-pull_from device rs in search (failing, FailsOther-pull_one) depth 20

  pub FailsOther-pull_pending_configuration :
      (device : Str) → FailsOther (pull_pending_configuration f e device)
  unfolding pull_pending_configuration
  FailsOther-pull_pending_configuration device =
      search (failing, FailsOther-get_device, FailsOther-pull_from) depth 20

  FailsOther-set_current :
      (c : SubmitReceiptCommand) (at : Time) (x : Result Error Device)
      → FailsOther (set_current f e c at x)
  FailsOther-set_current c at (err x) = FailsOther-pure tt
  FailsOther-set_current c at (ok d) = search failing depth 20

  FailsOther-accept_receipt :
      (device : Str) (c : SubmitReceiptCommand) (t : Target) (r : Receipt) (at : Time)
      → FailsOther (accept_receipt f e device c t r at)
  unfolding accept_receipt note_configuration
  FailsOther-accept_receipt device c t r at =
      search (failing, FailsOther-update_target, FailsOther-set_current) depth 30

  pub FailsOther-submit_receipt :
      (device : Str) (c : SubmitReceiptCommand) → FailsOther (submit_receipt f e device c)
  unfolding submit_receipt
  FailsOther-submit_receipt device c =
      search (failing, FailsOther-get_target, FailsOther-create_receipt, FailsOther-accept_receipt)
        depth 30

  FailsOther-load_all : (ids : List Str) (m : List (Str × Device)) → FailsOther (load_all f e ids m)
  unfolding load_all
  FailsOther-load_all [] m = FailsOther-pure m
  FailsOther-load_all (id ∷ ids) m =
      let rest = λ (d : Device). FailsOther-load_all ids (put id d m) in
      search (failing, FailsOther-get_device, rest) depth 20

  FailsOther-insert_targets : (ts : List Target) → FailsOther (insert_targets f e ts)
  unfolding insert_targets
  FailsOther-insert_targets [] = FailsOther-pure tt
  FailsOther-insert_targets (t ∷ ts) =
      let rest = FailsOther-insert_targets ts in search (failing, FailsOther-insert_target) depth 20

  EndsOther-commit :
      {A : Type 0} (before : Store f) (x : Result Error A × World f)
      → EndsOther x
      → EndsOther (commit f e before x)
  EndsOther-commit before (err x, w) h = h
  EndsOther-commit before (ok r, w) h = elim (Bool-cases (e.fails w.calls)) [
    | inl down ↦ rw down database-IsOther
    | inr up ↦ rw up tt
  ]

  FailsOther-transaction :
      {A : Type 0} (m : Run f A) → FailsOther m → FailsOther (transaction f e m)
  unfolding transaction
  FailsOther-transaction m k = record {
    ends = λ w. elim (Bool-cases (e.fails w.calls)) [
      | inl down ↦ rw down database-IsOther
      | inr up ↦ rw up (EndsOther-commit w.store _ (k.ends (record w { calls = suc w.calls })))
    ];
  }

  FailsOther-store_rollout : (r : Rollout) (ts : List Target) → FailsOther (store_rollout f e r ts)
  unfolding store_rollout
  FailsOther-store_rollout r ts = elim (Result-cases (Rollout.validate r)) [
    | inr (x, bad) ↦ rw (bad, store_rollout) (FailsOther-fail _ invalid_entity-IsOther)
    | inl (u, good) ↦
        rw (good, store_rollout)
          (search
            (failing, FailsOther-transaction, FailsOther-insert_rollout, FailsOther-insert_targets)
            depth 20)
  ]

  FailsOther-make_targets :
      (r : Rollout) (at : Time) (index : ℕ) (ds : List Device)
      → FailsOther (make_targets f e r at index ds)
  unfolding make_targets
  FailsOther-make_targets r at index [] = FailsOther-pure []
  FailsOther-make_targets r at index (d ∷ ds) =
      let rest = FailsOther-make_targets r at (suc index) ds in search failing depth 20

  pub FailsOther-create_rollout :
      (c : CreateRolloutCommand) (actor : Str) → FailsOther (create_rollout f e c actor)
  unfolding create_rollout resolve_targets
  FailsOther-create_rollout c actor =
      search
        (
          failing, FailsOther-get_configuration, FailsOther-resolve_group, FailsOther-load_all,
          FailsOther-make_targets, FailsOther-store_rollout,
        )
        depth 40
