-- ===== src/Service/Edges/Operations.antt =====
-- Starting, pausing, cancelling and rolling back, as triples on the statuses of rollouts.
use edge_rollout_control_ser.Base.{refl, Option, Str, arith}
use edge_rollout_control_ser.Base.Floats.{Floats}
use edge_rollout_control_ser.Rollout.{Status, running, rolling_back}
use edge_rollout_control_ser.Service.{Env}
use edge_rollout_control_ser.Service.Steps.{
  start_rollout, started, pause_rollout, paused, cancel_rollout, cancelled, rollback_rollout,
}
use edge_rollout_control_ser.Service.Steps
use edge_rollout_control_ser.Service.Keeps.Receiving.{Keeps-activate_batch, Keeps-roll_back_all}
use edge_rollout_control_ser.Service.Triples.{From, From-bind, From-refuse, From-query}
use edge_rollout_control_ser.Service.Edges.Kinds.{starts, pauses, cancels, rolls_back}
use edge_rollout_control_ser.Service.Edges.{Edges, Reached, Held}
use edge_rollout_control_ser.Service.Edges.Reading.{
  On, beside, From-get_rollout, From-write_announce, Covers, step_by, at_time,
}

module _ {f : Floats} (e : Env) (edges : Edges) (σ : Str → Option Status) where
  pub From-start_rollout :
      (id actor : Str)
      → Covers edges starts id
      → From (On {f = f} (Reached edges σ)) (start_rollout f e id actor) (On (Reached edges σ))
  unfolding start_rollout
  From-start_rollout id actor covers = From-get_rollout e edges σ id _ λ r is_id.
      From-refuse (On (Held edges σ r)) (On (Reached edges σ)) _ _ _ (λ s i. i.0)
        λ passed. at_time e edges σ r _ λ at.
          From-bind (On (Held edges σ r)) (On (Held edges σ r)) (On (Reached edges σ)) _ _
            (Keeps-activate_batch (beside (Held edges σ r)) e _ _).keeps (λ s i. i.0)
            λ u.
              From-write_announce e edges σ r (started f e r at) actor _ _ (ground arith)
                (step_by edges starts id r running covers is_id (ground arith))

  pub From-pause_rollout :
      (id reason actor : Str)
      → Covers edges pauses id
      → From
          (On {f = f} (Reached edges σ))
          (pause_rollout f e id reason actor)
          (On (Reached edges σ))
  unfolding pause_rollout
  From-pause_rollout id reason actor covers = From-get_rollout e edges σ id _ λ r is_id.
      From-refuse (On (Held edges σ r)) (On (Reached edges σ)) _ _ _ (λ s i. i.0)
        λ passed. at_time e edges σ r _ λ at.
          From-write_announce e edges σ r (paused f e r reason at) actor _ _ refl
            (step_by edges pauses id r Status.paused covers is_id (ground arith))

  pub From-cancel_rollout :
      (id actor : Str)
      → Covers edges cancels id
      → From (On {f = f} (Reached edges σ)) (cancel_rollout f e id actor) (On (Reached edges σ))
  unfolding cancel_rollout
  From-cancel_rollout id actor covers = From-get_rollout e edges σ id _ λ r is_id.
      From-refuse (On (Held edges σ r)) (On (Reached edges σ)) _ _ _ (λ s i. i.0)
        λ passed. at_time e edges σ r _ λ at.
          From-write_announce e edges σ r (cancelled f e r at) actor _ _ refl
            (step_by edges cancels id r Status.cancelled covers is_id (ground arith))

  pub From-rollback_rollout :
      (id actor : Str)
      → Covers edges rolls_back id
      → From (On {f = f} (Reached edges σ)) (rollback_rollout f e id actor) (On (Reached edges σ))
  unfolding rollback_rollout
  From-rollback_rollout id actor covers = From-get_rollout e edges σ id _ λ r is_id.
      From-refuse (On (Held edges σ r)) (On (Reached edges σ)) _ _ _ (λ s i. i.0)
        λ has_version.
          From-refuse (On (Held edges σ r)) (On (Reached edges σ)) _ _ _ (λ s i. i.0)
            λ passed. at_time e edges σ r _ λ at.
              From-bind (On (Held edges σ r)) (On (Held edges σ r)) (On (Reached edges σ)) _ _
                (From-query e _ _) (λ s i. i.0)
                λ ts.
                  From-bind (On (Held edges σ r)) (On (Held edges σ r)) (On (Reached edges σ)) _ _
                    (Keeps-roll_back_all (beside (Held edges σ r)) e _ _ _).keeps (λ s i. i.0)
                    λ u.
                      From-write_announce e edges σ r (Steps.rolling_back f e r at) actor _ _ refl
                        (step_by edges rolls_back id r rolling_back covers is_id (ground arith))
