-- ===== src/Service/Dispatch/Attempts.antt =====
-- The number of attempts of a delivery, through `Process` of the dispatcher.
use edge_rollout_control_ser.Base.{
  ℕ, ◌≡◌, true, not, ◌||◌, List, [], ◌∷◌, Str, str_eq, ltb, leb, Bool-cases, inl, inr, All, arith,
}
use edge_rollout_control_ser.Base.Int.{ℤ, ltb_ℤ, leb_ℤ}
use edge_rollout_control_ser.Base.Time.{Time}
use edge_rollout_control_ser.Base.Floats.{Floats}
use edge_rollout_control_ser.Webhook.{Delivery}
use edge_rollout_control_ser.Store.{Store, update_rows}
use edge_rollout_control_ser.Store.Deliveries.{is_open, write_delivery, update_delivery}
use edge_rollout_control_ser.Service.{Env, World, execute}
use edge_rollout_control_ser.Service.Triples.{
  From, From_branch, From-bind, From-attempt, From-pure, From-fail, From-now, From-query,
  From-execute,
}
use edge_rollout_control_ser.Service.Dispatch.{
  Client, Answer, no_answer, answered, begun, abandoned, failed, given_up, postponed, succeeded,
  record_failure, conclude, deliver, deliver_all, process,
}

-- A delivery that will be tried again has attempts left.
abbrev pub IsBounded : ℤ → Delivery → Type 0
IsBounded most d = is_open d ≡ true → ltb_ℤ d.attempts most ≡ true

update_rows-IsBounded :
    (most : ℤ) (d : Delivery) (id : Str) (ds : List Delivery)
    → IsBounded most d
    → All (IsBounded most) ds
    → All (IsBounded most) (update_rows (λ (o : Delivery). o.id) (write_delivery d) id ds)
unfolding update_rows
update_rows-IsBounded most d id [] new all = tt
update_rows-IsBounded most d id (o ∷ ds) new all = elim (Bool-cases (str_eq o.id id)) [
  | inl h ↦ rw h (new, update_rows-IsBounded most d id ds new all.1)
  | inr h ↦ rw h (all.0, update_rows-IsBounded most d id ds new all.1)
]

module _ {f : Floats} (e : Env) (client : Client) where
  abbrev Bounded : Store f → Type 0
  Bounded s = All (IsBounded client.max_attempts) s.deliveries

  From-update_delivery :
      (d : Delivery)
      → IsBounded client.max_attempts d
      → From Bounded (execute f e (λ s. update_delivery f s d)) Bounded
  unfolding update_delivery
  From-update_delivery d new =
      From-execute e Bounded Bounded _ (λ s i. i)
        λ s t i h.
          let rows : t.deliveries
              ≡ update_rows (λ (o : Delivery). o.id) (write_delivery d) d.id s.deliveries =
            ground arith in
          rw rows (update_rows-IsBounded client.max_attempts d d.id s.deliveries new i)

  From-record_failure :
      (d : Delivery) (code : ℕ) (text : Str)
      → From Bounded (record_failure f e client d code text) Bounded
  unfolding record_failure
  From-record_failure d code text = elim (Bool-cases (leb_ℤ client.max_attempts d.attempts)) [
    | inl over ↦ rw over (
        From-bind Bounded Bounded Bounded _ _
          (From-update_delivery (given_up (failed d code text)) (λ o. absurd (ground arith)))
          (λ s i. i) (λ u. From-fail Bounded _))
    | inr left ↦ rw left (
        From-bind Bounded Bounded Bounded _ _ (From-now e Bounded) (λ s i. i)
          λ at.
            From-bind Bounded Bounded Bounded _ _
              (From-update_delivery (postponed (failed d code text) at) (λ o. ground arith))
              (λ s i. i) (λ u. From-fail Bounded _))
  ]

  From-conclude :
      (d : Delivery) (at : Time) (answer : Answer)
      → From Bounded (conclude f e client d at answer) Bounded
  From-conclude d at (no_answer text) = From-record_failure d 0 text
  From-conclude d at (answered code) = elim (Bool-cases (ltb code 200 || leb 300 code)) [
    | inl bad ↦ rw bad (From-record_failure d code _)
    | inr good ↦ rw good (From-update_delivery (succeeded d code at) (λ o. absurd (ground arith)))
  ]

  From-deliver : (d : Delivery) → From Bounded (deliver f e client d) Bounded
  unfolding deliver
  From-deliver d =
      From-bind Bounded Bounded Bounded _ _ (From-query e Bounded _) (λ s i. i)
        λ s.
          From-bind Bounded Bounded Bounded _ _ (From-now e Bounded) (λ s i. i)
            λ at.
              From_branch Bounded Bounded (not s.enabled) _ _
                (From-update_delivery (abandoned (begun d at)) (λ o. absurd (ground arith)))
                (From-conclude (begun d at) at (client.post s (begun d at) at))

  From-deliver_all : (ds : List Delivery) → From Bounded (deliver_all f e client ds) Bounded
  unfolding deliver_all
  From-deliver_all [] = From-pure Bounded tt
  From-deliver_all (d ∷ ds) =
      From-bind Bounded Bounded Bounded _ _ (From-attempt _ _ _ (From-deliver d)) (λ s i. i)
        (λ done. From-deliver_all ds)

-- If every delivery that is still pending or to be retried has been tried less often than the limit,
-- that is so after the dispatcher has processed the due ones, whatever the subscribers answer and
-- the database does: a delivery that reaches the limit is given up.
pub process-IsBounded :
    (f : Floats) (e : Env) (client : Client) (w : World f) (limit : ℤ)
    → All (IsBounded client.max_attempts) w.store.deliveries
    → All (IsBounded client.max_attempts) (process f e client limit w).1.store.deliveries
unfolding process
process-IsBounded f e client w limit all =
    From.leads
      (From-bind (Bounded e client) (Bounded e client) (Bounded e client) _ _ (From-now e _)
        (λ s i. i)
        λ at.
          From-bind (Bounded e client) (Bounded e client) (Bounded e client) _ _ (From-query e _ _)
            (λ s i. i) λ ds. From-deliver_all e client ds)
      w all
