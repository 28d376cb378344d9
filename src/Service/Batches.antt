-- ===== src/Service/Batches.antt =====
-- `ReconcileRollout` while the current batch is not done.
use edge_rollout_control_ser.Base.{
  ℕ, ◌<◌, ◌≡◌, ◌⊎◌, inl, inr, refl, sym, ◌∙◌, ap, subst, true, ◌||◌, Option, none, some, List, Str,
  ltb, ◌==◌, Result, ok, err, Bool-cases, arith,
}
use edge_rollout_control_ser.Base.Floats.{Floats}
use edge_rollout_control_ser.Rollout.{paused, Rollout, TargetStatus}
use edge_rollout_control_ser.Store.{Error, Store, row, update_rows}
use edge_rollout_control_ser.Store.Rows.{get_rollout, update_rollout, write_rollout, read_rollout}
use edge_rollout_control_ser.Store.Targets.{count_target_states}
use edge_rollout_control_ser.Store.Laws.{row-update_rows}
use edge_rollout_control_ser.Service.{Env, World, execute, query, attempt, ◌>>=◌}
use edge_rollout_control_ser.Service.Reconcile.{
  total_of, terminal_of, counted, decide_pause, auto_pause, auto_paused, touched, wait_for_batch,
  settle, pause_or_settle, is_open, reconcile_open, reconcile_rollout,
}
use edge_rollout_control_ser.Service.Triples.{
  From, From-before, From-fact, From-bind, From-attempt, From-pure, From-now, From-query,
  From-query_bind, From-execute, From-audit, From-emit,
}
use edge_rollout_control_ser.Service.Edges.{row_id}
use edge_rollout_control_ser.Service.Edges.Reading.{On, aside}
use edge_rollout_control_ser.Service.Edges.Reconciling.{From-decide_pause, counted_same}

-- The rollout x is still in its batch, with its status or paused.
pub record Stays (id : Str) (x : Rollout) (rs : List Rollout) : Type 0 where
  pub now : Rollout
  pub there : row (λ (r : Rollout). r.id) id rs ≡ some now
  pub batch : now.current_batch ≡ x.current_batch
  pub status : (now.status ≡ x.status) ⊎ (now.status ≡ paused)

abbrev Is : List Rollout → List Rollout → Type 0
Is rows rs = rs ≡ rows

counted_batch :
    (r : Rollout) (batch : TargetStatus → ℕ) (all : Result Error (TargetStatus → ℕ))
    → (counted r batch all).current_batch ≡ r.current_batch
counted_batch r batch (ok c) = refl
counted_batch r batch (err c) = refl

unmoved :
    (id : Str) (x : Rollout) (rows : List Rollout)
    → row (λ (r : Rollout). r.id) id rows ≡ some x
    → (rs : List Rollout) → Is rows rs
    → Stays id x rs
unmoved id x rows there rs is_rows = record {
  now = x;
  there = rw is_rows there;
  batch = refl;
  status = inl refl;
}

module _ {f : Floats} (e : Env) (id : Str) (x : Rollout) (rows : List Rollout)
    (there : row (λ (r : Rollout). r.id) id rows ≡ some x) where
  updated :
      (q : Rollout) (s t : Store f)
      → q.id ≡ id
      → q.current_batch ≡ x.current_batch
      → (q.status ≡ x.status) ⊎ (q.status ≡ paused)
      → On (Is rows) s
      → update_rollout f s q ≡ ok t
      → On (Stays id x) t
  unfolding update_rollout
  updated q s t is_id batch status is_rows h =
      let after : t.rollouts
          ≡ update_rows (λ (r : Rollout). r.id) (write_rollout q) q.id s.rollouts =
        ground arith in
      record {
        now = write_rollout q x;
        there =
            rw (after, is_rows, is_id)
              (row-update_rows (λ (r : Rollout). r.id) (write_rollout q) id rows x (λ b. refl)
                there);
        batch = batch;
        status = status;
      }

  From-update :
      (q : Rollout)
      → q.id ≡ id
      → q.current_batch ≡ x.current_batch
      → (q.status ≡ x.status) ⊎ (q.status ≡ paused)
      → From (On {f = f} (Is rows)) (execute f e (λ s. update_rollout f s q)) (On (Stays id x))
  From-update q is_id batch status =
      From-execute e _ _ _ (λ s i. unmoved id x rows there s.rollouts i)
        (λ s t i h. updated q s t is_id batch status i h)

  From-auto_pause :
      (r : Rollout) (reason : Str)
      → r.id ≡ id
      → r.current_batch ≡ x.current_batch
      → From (On {f = f} (Is rows)) (auto_pause f e r reason) (On (Stays id x))
  unfolding auto_pause
  From-auto_pause r reason is_id batch =
      From-bind (On (Is rows)) (On (Is rows)) (On (Stays id x)) _ _ (From-now e _)
        (λ s i. unmoved id x rows there s.rollouts i)
        λ at.
          From-bind (On (Is rows)) (On (Stays id x)) (On (Stays id x)) _ _
            (From-attempt _ _ _ (From-update (auto_paused f e r reason at) is_id batch (inr refl)))
            (λ s i. i)
            λ u.
              From-bind (On (Stays id x)) (On (Stays id x)) (On (Stays id x)) _ _
                (From-audit e _ _ _ _ _ _ (aside (Stays id x))) (λ s i. i)
                λ v. From-emit e _ _ _ _ (aside (Stays id x))

  From-settle :
      (r : Rollout) (total done : ℕ)
      → r.id ≡ id
      → r.current_batch ≡ x.current_batch
      → r.status ≡ x.status
      → done < total
      → From (On {f = f} (Is rows)) (settle f e r total done) (On (Stays id x))
  unfolding settle wait_for_batch
  From-settle r total done is_id batch status waits =
      let test : (total == 0 || ltb done total) ≡ true = ground arith in
      rw test (
        From-bind (On (Is rows)) (On (Is rows)) (On (Stays id x)) _ _ (From-now e _)
          (λ s i. unmoved id x rows there s.rollouts i)
          (λ at. From-update (touched f e r at) is_id batch (inl status)))

  From-pause_or_settle :
      (r : Rollout) (total done : ℕ) (reason : Option Str)
      → r.id ≡ id
      → r.current_batch ≡ x.current_batch
      → r.status ≡ x.status
      → done < total
      → From (On {f = f} (Is rows)) (pause_or_settle f e r total done reason) (On (Stays id x))
  From-pause_or_settle r total done (some reason) is_id batch status waits =
      From-auto_pause r reason is_id batch
  From-pause_or_settle r total done none is_id batch status waits =
      From-settle r total done is_id batch status waits

ok-inj : {A : Type 0} {a b : A} → ◌≡◌ {A = Result Error A} (ok a) (ok b) → a ≡ b
ok-inj e = cc e

got :
    {f : Floats} (s : Store f) (id : Str) (x r : Rollout)
    → row (λ (y : Rollout). y.id) id s.rollouts ≡ some x
    → get_rollout f s id ≡ ok r
    → read_rollout x ≡ r
unfolding get_rollout
got s id x r there h = ok-inj (rw (there, get_rollout) at h)

after_counts :
    {f : Floats} (e : Env) (id : Str) (x : Rollout) (rows : List Rollout)
    → row (λ (r : Rollout). r.id) id rows ≡ some x
    → (r : Rollout) (batch : TargetStatus → ℕ) → read_rollout x ≡ r
    → terminal_of batch < total_of batch
    → From
        (On {f = f} (Is rows))
        (attempt (query f e (λ s. ok (count_target_states f s id 0))) >>= λ all.
          decide_pause f e (counted r batch all) >>= λ reason.
          pause_or_settle f e (counted r batch all) (total_of batch) (terminal_of batch) reason)
        (On (Stays id x))
after_counts {f} e id x rows there r batch is_r waits =
    let stays = λ (s : Store f) (i : s.rollouts ≡ rows). unmoved id x rows there s.rollouts i in
    From-bind (On (Is rows)) (On (Is rows)) (On (Stays id x)) _ _
      (From-attempt _ _ _ (From-query e _ _)) stays
      λ all.
        From-bind (On (Is rows)) (On (Is rows)) (On (Stays id x)) _ _
          (From-decide_pause e (Is rows) (counted r batch all)) stays
          λ reason.
            let (status, is_id) = counted_same r batch all in
            From-pause_or_settle e id x rows there (counted r batch all) _ _ reason
              (sym is_id ∙ ap (λ (y : Rollout). y.id) (sym is_r) ∙ row_id id rows x there)
              (counted_batch r batch all ∙ ap (λ (y : Rollout). y.current_batch) (sym is_r))
              (sym status ∙ ap (λ (y : Rollout). y.status) (sym is_r)) waits

-- While a target of the current batch is not terminal, `ReconcileRollout` does not leave the batch
-- and neither completes the rollout nor ends a rollback: its status is what it was, or paused.
pub reconcile_rollout-Stays :
    (f : Floats) (e : Env) (w : World f) (id : Str) (x : Rollout)
    → row (λ (r : Rollout). r.id) id w.store.rollouts ≡ some x
    → terminal_of (count_target_states f w.store id x.current_batch)
      < total_of (count_target_states f w.store id x.current_batch)
    → Stays id x (reconcile_rollout f e id w).1.store.rollouts
unfolding reconcile_rollout reconcile_open
reconcile_rollout-Stays f e w id x there waits =
    let rows = w.store.rollouts in
    let I = λ (s : Store f). s ≡ w.store in
    let J = On {f = f} (Stays id x) in
    let stays = λ (s : Store f) (i : s ≡ w.store).
      unmoved id x rows there s.rollouts (ap (λ (z : Store f). z.rollouts) i) in
    From.leads
      (From-query_bind e I J _ _ stays λ r. elim (Bool-cases (is_open f e r)) [
        | inr closed ↦ rw closed (From-before _ J J _ (λ s i. stays s i.0) (From-pure J tt))
        | inl active ↦ rw active (
            From-query_bind e _ J _ _ (λ s i. stays s i.0)
              λ batch.
                From-fact
                  {F = (read_rollout x ≡ r)
                    × (count_target_states f w.store id r.current_batch ≡ batch)}
                  _ J _
                  (λ s i. (
                    got s id x r (rw i.0.0 there) i.0.1,
                    subst (λ (z : Store f). count_target_states f z id r.current_batch ≡ batch)
                        i.0.0 (ok-inj i.1),
                  ))
                  (λ facts.
                    From-before _ (On (Is rows)) J _ (λ s i. ap (λ (z : Store f). z.rollouts) i.0.0)
                      (after_counts e id x rows there r batch facts.0 (
                        subst (λ (c : TargetStatus → ℕ). terminal_of c < total_of c)
                          (ap (λ (y : Rollout). count_target_states f w.store id y.current_batch)
                              facts.0
                            ∙ facts.1)
                          waits))))
      ])
      w refl
