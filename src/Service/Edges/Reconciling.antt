-- ===== src/Service/Edges/Reconciling.antt =====
-- The reconciliation and the scheduler, as triples on the statuses of rollouts.
use edge_rollout_control_ser.Base.{
  ℕ, ◌≡◌, refl, true, ◌||◌, Option, none, some, List, [], ◌∷◌, Str, bytes, is_empty, ltb, ◌==◌,
  Result, ok, err, Bool-cases, inl, inr, arith,
}
use edge_rollout_control_ser.Base.Int.{ℤ, pos, ltb_ℤ}
use edge_rollout_control_ser.Base.Floats.{Floats}
use edge_rollout_control_ser.Rollout.{
  Status, status_eq, running, rolling_back, completed, rolled_back, draft, Rollout, TargetStatus,
}
use edge_rollout_control_ser.Store.{Error}
use edge_rollout_control_ser.Service.{Env}
use edge_rollout_control_ser.Service.Reconcile.{
  decide_pause, auto_pause, auto_paused, touched, finished, wait_for_batch, finish_rollback,
  advanced, next_batch, complete, settle, pause_or_settle, is_open, reconcile_open,
  reconcile_rollout, counted, process_all, process_runnable_rollouts,
}
use edge_rollout_control_ser.Service.Keeps.Receiving.{Keeps-activate_batch}
use edge_rollout_control_ser.Service.Triples.{
  From, From-before, From-bind, From-attempt, From-pure, From-now, From-query, From-audit,
  From-emit,
}
use edge_rollout_control_ser.Service.Edges.Kinds.{starts, reconciles}
use edge_rollout_control_ser.Service.Edges.{Edges, Reached, Held}
use edge_rollout_control_ser.Service.Edges.Reading.{
  On, aside, beside, From-get_rollout, From-update_rollout, Covers, step_by, step_self, at_time,
}
use edge_rollout_control_ser.Service.Edges.Operations.{From-start_rollout}

-- A rollout that is running or rolling back.
abbrev IsActive : Rollout → Type 0
IsActive r = (status_eq r.status running || status_eq r.status rolling_back) ≡ true

-- Counting changes neither the id nor the status.
pub counted_same :
    (r : Rollout) (batch : TargetStatus → ℕ) (all : Result Error (TargetStatus → ℕ))
    → (r.status ≡ (counted r batch all).status) × (r.id ≡ (counted r batch all).id)
counted_same r batch (ok x) = (refl, refl)
counted_same r batch (err x) = (refl, refl)

module _ {f : Floats} (e : Env) where
  pub From-decide_pause :
      (P : List Rollout → Type 0) (r : Rollout) → From (On {f = f} P) (decide_pause f e r) (On P)
  unfolding decide_pause
  From-decide_pause P r = elim (Bool-cases (is_empty r.rule_id)) [
    | inl h ↦ rw h (From-pure (On P) none)
    | inr h ↦ rw h (
        From-bind (On P) (On P) (On P) _ _ (From-attempt _ _ _ (From-query e (On P) _)) (λ s i. i)
          (λ rule. From-pure (On P) _))
  ]

module _ {f : Floats} (e : Env) (edges : Edges) (σ : Str → Option Status) where
  From-wait_for_batch :
      (r : Rollout)
      → From (On {f = f} (Held edges σ r)) (wait_for_batch f e r) (On (Reached edges σ))
  unfolding wait_for_batch
  From-wait_for_batch r =
      at_time e edges σ r _ λ at.
        From-update_rollout e edges σ r (touched f e r at) refl (step_self edges r.id r.status)

  From-finish_rollback :
      (id : Str) (r : Rollout)
      → status_eq r.status rolling_back ≡ true
      → Covers edges reconciles id
      → r.id ≡ id
      → From (On {f = f} (Held edges σ r)) (finish_rollback f e r) (On (Reached edges σ))
  unfolding finish_rollback
  From-finish_rollback id r back covers is_id = at_time e edges σ r _ λ at.
      From-update_rollout e edges σ r (finished f e r rolled_back at) refl
        (step_by edges reconciles id r rolled_back covers is_id (ground arith))

  From-next_batch :
      (r : Rollout) → From (On {f = f} (Held edges σ r)) (next_batch f e r) (On (Reached edges σ))
  unfolding next_batch
  From-next_batch r = at_time e edges σ r _ λ at.
      From-bind (On (Held edges σ r)) (On (Held edges σ r)) (On (Reached edges σ)) _ _
        (Keeps-activate_batch (beside (Held edges σ r)) e _ _).keeps (λ s i. i.0)
        λ u.
          From-update_rollout e edges σ r (advanced f e r at) refl (step_self edges r.id r.status)

  From-complete :
      (id : Str) (r : Rollout)
      → status_eq r.status running ≡ true
      → Covers edges reconciles id
      → r.id ≡ id
      → From (On {f = f} (Held edges σ r)) (complete f e r) (On (Reached edges σ))
  unfolding complete
  From-complete id r runs covers is_id = at_time e edges σ r _ λ at.
      From-bind (On (Held edges σ r)) (On (Reached edges σ)) (On (Reached edges σ)) _ _
        (From-update_rollout e edges σ r (finished f e r completed at) refl
          (step_by edges reconciles id r completed covers is_id (ground arith)))
        (λ s i. i)
        λ u.
          From-bind (On (Reached edges σ)) (On (Reached edges σ)) (On (Reached edges σ)) _ _
            (From-audit e _ _ _ _ _ _ (aside (Reached edges σ))) (λ s i. i)
            λ v. From-emit e _ _ _ _ (aside (Reached edges σ))

  From-settle :
      (id : Str) (r : Rollout) (total done : ℕ)
      → IsActive r
      → Covers edges reconciles id
      → r.id ≡ id
      → From (On {f = f} (Held edges σ r)) (settle f e r total done) (On (Reached edges σ))
  unfolding settle
  From-settle id r total done active covers is_id =
      elim (Bool-cases (total == 0 || ltb done total)) [
        | inl waits ↦ rw waits (From-wait_for_batch r)
        | inr over ↦ elim (Bool-cases (status_eq r.status rolling_back)) [
          | inl back ↦ rw (over, back) (From-finish_rollback id r back covers is_id)
          | inr runs ↦
              elim (Bool-cases
                (ltb_ℤ (pos r.current_batch) (e.ceiling r.target_count r.batch_size))) [
                  | inl more ↦ rw (over, runs, more) (From-next_batch r)
                  | inr last ↦
                      rw (over, runs, last) (From-complete id r (ground arith) covers is_id)
                ]
        ]
      ]

  From-auto_pause :
      (id : Str) (r : Rollout) (reason : Str)
      → IsActive r
      → Covers edges reconciles id
      → r.id ≡ id
      → From (On {f = f} (Held edges σ r)) (auto_pause f e r reason) (On (Reached edges σ))
  unfolding auto_pause
  From-auto_pause id r reason active covers is_id = at_time e edges σ r _ λ at.
      From-bind (On (Held edges σ r)) (On (Reached edges σ)) (On (Reached edges σ)) _ _
        (From-attempt _ _ _ (
          From-update_rollout e edges σ r (auto_paused f e r reason at) refl
            (step_by edges reconciles id r Status.paused covers is_id (ground arith))))
        (λ s i. i)
        λ u.
          From-bind (On (Reached edges σ)) (On (Reached edges σ)) (On (Reached edges σ)) _ _
            (From-audit e _ _ _ _ _ _ (aside (Reached edges σ))) (λ s i. i)
            λ v. From-emit e _ _ _ _ (aside (Reached edges σ))

  From-pause_or_settle :
      (id : Str) (r : Rollout) (total done : ℕ) (reason : Option Str)
      → IsActive r
      → Covers edges reconciles id
      → r.id ≡ id
      → From
          (On {f = f} (Held edges σ r))
          (pause_or_settle f e r total done reason)
          (On (Reached edges σ))
  From-pause_or_settle id r total done (some reason) active covers is_id =
      From-auto_pause id r reason active covers is_id
  From-pause_or_settle id r total done none active covers is_id =
      From-settle id r total done active covers is_id

  From-reconcile_open :
      (id : Str) (r : Rollout)
      → IsActive r
      → Covers edges reconciles id
      → r.id ≡ id
      → From (On {f = f} (Held edges σ r)) (reconcile_open f e id r) (On (Reached edges σ))
  unfolding reconcile_open
  From-reconcile_open id r active covers is_id =
      From-bind (On (Held edges σ r)) (On (Held edges σ r)) (On (Reached edges σ)) _ _
        (From-query e _ _) (λ s i. i.0)
        λ batch.
          From-bind (On (Held edges σ r)) (On (Held edges σ r)) (On (Reached edges σ)) _ _
            (From-attempt _ _ _ (From-query e _ _)) (λ s i. i.0)
            λ all.
              let (same, is_same) = counted_same r batch all in
              From-bind (On (Held edges σ r)) (On (Held edges σ r)) (On (Reached edges σ)) _ _
                (From-decide_pause e (Held edges σ r) (counted r batch all)) (λ s i. i.0)
                λ reason.
                  From-before (On (Held edges σ r)) (On (Held edges σ (counted r batch all)))
                    (On (Reached edges σ)) _ (λ s i. (i.0, rw (← same, ← is_same) i.1))
                    (From-pause_or_settle id (counted r batch all) _ _ reason (rw (← same) active)
                      covers (rw (← is_same) is_id))

  pub From-reconcile_rollout :
      (id : Str)
      → Covers edges reconciles id
      → From (On {f = f} (Reached edges σ)) (reconcile_rollout f e id) (On (Reached edges σ))
  unfolding reconcile_rollout
  From-reconcile_rollout id covers = From-get_rollout e edges σ id _ λ r is_id.
      elim (Bool-cases (is_open f e r)) [
        | inl active ↦ rw active (From-reconcile_open id r active covers is_id)
        | inr closed ↦ rw closed (
            From-before (On (Held edges σ r)) (On (Reached edges σ)) (On (Reached edges σ)) _
              (λ s i. i.0) (From-pure _ tt))
      ]

  From-process_all :
      (rs : List Rollout)
      → ((id : Str) → Covers edges starts id)
      → ((id : Str) → Covers edges reconciles id)
      → From (On {f = f} (Reached edges σ)) (process_all f e rs) (On (Reached edges σ))
  unfolding process_all
  From-process_all [] covers_start covers = From-pure _ tt
  From-process_all (r ∷ rs) covers_start covers = elim (Bool-cases (status_eq r.status draft)) [
    | inl h ↦ rw h (
        From-bind (On (Reached edges σ)) (On (Reached edges σ)) (On (Reached edges σ)) _ _
          (From-attempt _ _ _ (
            From-bind (On (Reached edges σ)) (On (Reached edges σ)) (On (Reached edges σ)) _ _
              (From-start_rollout e edges σ r.id (bytes "scheduler") (covers_start r.id)) (λ s i. i)
              (λ q. From-pure _ tt)))
          (λ s i. i) (λ done. From-process_all rs covers_start covers))
    | inr h ↦ rw h (
        From-bind (On (Reached edges σ)) (On (Reached edges σ)) (On (Reached edges σ)) _ _
          (From-attempt _ _ _ (From-reconcile_rollout r.id (covers r.id))) (λ s i. i)
          (λ done. From-process_all rs covers_start covers))
  ]

  pub From-process_runnable_rollouts :
      (limit : ℤ)
      → ((id : Str) → Covers edges starts id)
      → ((id : Str) → Covers edges reconciles id)
      → From
          (On {f = f} (Reached edges σ))
          (process_runnable_rollouts f e limit)
          (On (Reached edges σ))
  unfolding process_runnable_rollouts
  From-process_runnable_rollouts limit covers_start covers =
      From-bind (On (Reached edges σ)) (On (Reached edges σ)) (On (Reached edges σ)) _ _
        (From-now e _) (λ s i. i)
        λ at.
          From-bind (On (Reached edges σ)) (On (Reached edges σ)) (On (Reached edges σ)) _ _
            (From-query e _ _) (λ s i. i) λ rs. From-process_all rs covers_start covers
