-- ===== src/Service/Edges/Reading.antt =====
-- Reading a rollout and writing it, as triples on the statuses of rollouts.
use edge_rollout_control_ser.Base.{
  ◌≡◌, sym, subst, Bool, true, Option, some, List, Str, ok, inl, inr, arith, Option-cases,
}
use edge_rollout_control_ser.Base.Time.{Time}
use edge_rollout_control_ser.Base.Floats.{Floats}
use edge_rollout_control_ser.Rollout.{Status, Rollout}
use edge_rollout_control_ser.Audit.{Detail}
use edge_rollout_control_ser.Store.{Store, row, update_rows}
use edge_rollout_control_ser.Store.Rows.{get_rollout, update_rollout, write_rollout, read_rollout}
use edge_rollout_control_ser.Service.{Env, Run, ◌>>=◌, ◌>>◌, now, query, execute}
use edge_rollout_control_ser.Service.Steps.{announce}
use edge_rollout_control_ser.Service.Keeps.Beside.{IsBeside}
use edge_rollout_control_ser.Service.Triples.{
  From, From-fact, From-before, From-bind, From-pure, From-now, From-query_bind, From-execute,
  From-audit, From-emit, IsAside,
}
use edge_rollout_control_ser.Service.Edges.{
  Edges, steps, by_edge, Reached, Held, status_at, row_id, status_at-row, status_at-update_rows,
  moved_at, ok-inj,
}

-- Reading and writing a rollout.
module _ {f : Floats} where
  abbrev pub On : (List Rollout → Type 0) → Store f → Type 0
  On P s = P s.rollouts

  pub aside : (P : List Rollout → Type 0) → IsAside (On P)
  aside P = record { audits = λ s x i. i; delivers = λ s x i. i }

  pub beside : (P : List Rollout → Type 0) → IsBeside (On P)
  beside P = record {
    aside = aside P;
    devices = λ s x i. i;
    groups = λ s x i. i;
    rules = λ s x i. i;
    subscriptions = λ s x i. i;
    targets = λ s x i. i;
    receipts = λ s x i. i;
  }

  holds :
      (edges : Edges) (σ : Str → Option Status) (id : Str) (r : Rollout) (s : Store f)
      → On (Reached edges σ) s
      → get_rollout f s id ≡ ok r
      → On (Held edges σ r) s
  unfolding get_rollout
  holds edges σ id r s i h = elim (Option-cases (row (λ (x : Rollout). x.id) id s.rollouts)) [
    | inl none_there ↦ absurd (cc (none_there, h))
    | inr (x, there) ↦
        let read : r ≡ read_rollout x = sym (ok-inj (rw there at h)) in
        let at_id = status_at-row id s.rollouts x there in
        (
          i,
          rw read (
              subst (λ z. status_at s.rollouts z ≡ some x.status)
                (sym (row_id id s.rollouts x there)) at_id),
        )
  ]

  read_id : (id : Str) (r : Rollout) (s : Store f) → get_rollout f s id ≡ ok r → r.id ≡ id
  unfolding get_rollout
  read_id id r s h = elim (Option-cases (row (λ (x : Rollout). x.id) id s.rollouts)) [
    | inl none_there ↦ absurd (cc (none_there, h))
    | inr (x, there) ↦
        let read : r ≡ read_rollout x = sym (ok-inj (rw there at h)) in
        rw read (row_id id s.rollouts x there)
  ]

  moved :
      (edges : Edges) (σ : Str → Option Status) (r q : Rollout) (s t : Store f)
      → q.id ≡ r.id
      → steps edges r.id r.status q.status ≡ true
      → On (Held edges σ r) s
      → update_rollout f s q ≡ ok t
      → On (Reached edges σ) t
  unfolding update_rollout
  moved edges σ r q s t same step i h =
      let rows : t.rollouts
          ≡ update_rows (λ (x : Rollout). x.id) (write_rollout q) q.id s.rollouts =
        ground arith in
      λ k.
        rw (rows, status_at-update_rows q s.rollouts k)
          (moved_at edges σ r q s.rollouts k same step i)

module _ {f : Floats} (e : Env) where
  From-announce :
      (P : List Rollout → Type 0) (actor action : Str) (details : List (Str × Detail)) (r : Rollout)
      → From (On {f = f} P) (announce f e actor action details r) (On P)
  From-announce P actor action details r =
      From-bind (On P) (On P) (On P) _ _ (From-audit e (On P) _ _ _ _ _ (aside P)) (λ s i. i)
        λ u.
          From-bind (On P) (On P) (On P) _ _ (From-emit e (On P) _ _ _ (aside P)) (λ s i. i)
            λ v. From-pure (On P) r

  -- A rollout is read, and what follows is a matter of that rollout.
  pub From-get_rollout :
      {B : Type 0} (edges : Edges) (σ : Str → Option Status) (id : Str) (k : Rollout → Run f B)
      → ((r : Rollout) → r.id ≡ id → From (On (Held edges σ r)) (k r) (On (Reached edges σ)))
      → From
          (On (Reached edges σ))
          (query f e (λ s. get_rollout f s id) >>= k)
          (On (Reached edges σ))
  From-get_rollout edges σ id k q =
      From-query_bind e (On (Reached edges σ)) (On (Reached edges σ)) _ k (λ s i. i)
        λ r.
          From-fact _ (On (Reached edges σ)) (k r) (λ s i. read_id id r s i.1)
            λ is_id.
              From-before _ (On (Held edges σ r)) (On (Reached edges σ)) (k r)
                (λ s i. holds edges σ id r s i.0 i.1) (q r is_id)

  -- It is written once with an allowed status.
  pub From-update_rollout :
      (edges : Edges) (σ : Str → Option Status) (r q : Rollout)
      → q.id ≡ r.id
      → steps edges r.id r.status q.status ≡ true
      → From
          (On {f = f} (Held edges σ r))
          (execute f e (λ s. update_rollout f s q))
          (On (Reached edges σ))
  From-update_rollout edges σ r q same step =
      From-execute e _ _ _ (λ s i. i.0) (λ s t i h. moved edges σ r q s t same step i h)

  -- The end that starting, pausing, cancelling and rolling back share.
  pub From-write_announce :
      (edges : Edges) (σ : Str → Option Status) (r q : Rollout) (actor action : Str)
      (details : List (Str × Detail))
      → q.id ≡ r.id
      → steps edges r.id r.status q.status ≡ true
      → From
          (On {f = f} (Held edges σ r))
          (execute f e (λ s. update_rollout f s q) >> announce f e actor action details q)
          (On (Reached edges σ))
  From-write_announce edges σ r q actor action details same step =
      From-bind _ (On (Reached edges σ)) (On (Reached edges σ)) _ _
        (From-update_rollout edges σ r q same step) (λ s i. i)
        (λ u. From-announce (Reached edges σ) actor action details q)

-- These are changes that the rollout `id` may make.
abbrev pub Covers : Edges → (Status → Status → Bool) → Str → Type 0
Covers edges p id = (a b : Status) → p a b ≡ true → edges id (some a) b ≡ true

module _ (edges : Edges) where
  pub step_by :
      (p : Status → Status → Bool) (id : Str) (r : Rollout) (b : Status)
      → Covers edges p id
      → r.id ≡ id
      → p r.status b ≡ true
      → steps edges r.id r.status b ≡ true
  step_by p id r b covers is_id h = rw is_id (by_edge edges id r.status b (covers r.status b h))

  pub step_self : (id : Str) (s : Status) → steps edges id s s ≡ true
  step_self id s = ground arith

module _ {f : Floats} (e : Env) (edges : Edges) (σ : Str → Option Status) where
  -- The clock is read, and then the rest goes on.
  pub at_time :
      {B : Type 0} (r : Rollout) (k : Time → Run f B)
      → ((at : Time) → From (On (Held edges σ r)) (k at) (On (Reached edges σ)))
      → From (On (Held edges σ r)) (now f e >>= k) (On (Reached edges σ))
  at_time r k q =
      From-bind (On (Held edges σ r)) (On (Held edges σ r)) (On (Reached edges σ)) _ k
        (From-now e _) (λ s i. i.0) q
