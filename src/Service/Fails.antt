-- ===== src/Service/Fails.antt =====
-- The errors with which runs may fail: one rule for each construct, so that `search` goes through an
-- operation. No run fails with the `ErrNotFound` of the application.
pub mod Statements
pub mod Operations
pub mod Receiving
pub mod Entries
use edge_rollout_control_ser.Base.{
  ◌≡◌, refl, Bool, true, false, Option, none, some, List, [], ◌∷◌, Str, Result, ok, err,
  if◌then◌else◌, Bool-cases, inl, inr, suc,
}
use edge_rollout_control_ser.Base.Floats.{Floats}
use edge_rollout_control_ser.Base.Time.{Time}
use edge_rollout_control_ser.Audit.{Detail}
use edge_rollout_control_ser.Webhook.{Subscription}
use edge_rollout_control_ser.Store.{
  Error, database, not_found, invalid_state, conflict, invalid_entity, validation, Store,
}
use edge_rollout_control_ser.Service.{
  Env, World, Run, Payload, pure, fail, refuse, attempt, continue, ◌>>=◌, now, new_id, query,
  execute, execute_for, written, written_with, audit, emit, enqueue_all, deliver_to,
}

abbrev pub IsOther : Error → Type 0
IsOther x = x ≡ not_found → ⊥

abbrev pub EndsOther : {A B : Type 0} → Result Error A × B → Type 0
EndsOther (ok a, w) = Unit
EndsOther (err x, w) = IsOther x

-- A run that fails with other errors only.
pub record FailsOther {f : Floats} {A : Type 0} (m : Run f A) : Type 0 where
  pub ends : (w : World f) → EndsOther (m w)

database-IsOther : IsOther database
database-IsOther h = cc

pub invalid_state-IsOther : IsOther invalid_state
invalid_state-IsOther h = cc

pub conflict-IsOther : IsOther conflict
conflict-IsOther h = cc

pub invalid_entity-IsOther : IsOther invalid_entity
invalid_entity-IsOther h = cc

pub validation-IsOther : (field : Str) → IsOther (validation field)
validation-IsOther field h = cc

module _ {f : Floats} where
  EndsOther-continue :
      {A B : Type 0} (k : A → Run f B) (x : Result Error A × World f)
      → EndsOther x
      → ((a : A) → FailsOther (k a))
      → EndsOther (continue x.0 k x.1)
  EndsOther-continue k (ok a, w) h q = (q a).ends w
  EndsOther-continue k (err x, w) h q = h

  pub FailsOther-bind :
      {A B : Type 0} {m : Run f A} {k : A → Run f B}
      → FailsOther m
      → ((a : A) → FailsOther (k a))
      → FailsOther (m >>= k)
  unfolding ◌>>=◌
  FailsOther-bind {m = m} {k = k} p q = record {
    ends = λ w. EndsOther-continue k (m w) (p.ends w) q;
  }

  pub FailsOther-pure : {A : Type 0} (a : A) → FailsOther {f = f} (pure a)
  unfolding pure
  FailsOther-pure a = record { ends = λ w. tt }

  pub FailsOther-fail : {A : Type 0} (x : Error) → IsOther x → FailsOther {f = f} {A = A} (fail x)
  unfolding fail
  FailsOther-fail x h = record { ends = λ w. h }

  pub FailsOther-refuse : (b : Bool) (x : Error) → IsOther x → FailsOther {f = f} (refuse b x)
  unfolding refuse
  FailsOther-refuse true x h = record { ends = λ w. h }
  FailsOther-refuse false x h = record { ends = λ w. tt }

  pub FailsOther-attempt : {A : Type 0} (m : Run f A) → FailsOther (attempt m)
  unfolding attempt
  FailsOther-attempt m = record { ends = λ w. tt }

  pub FailsOther-branch :
      {A : Type 0} (b : Bool) (m n : Run f A)
      → FailsOther m
      → FailsOther n
      → FailsOther (if b then m else n)
  FailsOther-branch true m n p q = p
  FailsOther-branch false m n p q = q

  module _ (e : Env) where
    pub FailsOther-now : FailsOther (now f e)
    unfolding now
    FailsOther-now = record { ends = λ w. tt }

    pub FailsOther-new_id : FailsOther (new_id f e)
    unfolding new_id
    FailsOther-new_id = record { ends = λ w. tt }

    EndsOther-read :
        {A : Type 0} (r : Result Error A) (w : World f)
        → ((x : Error) → r ≡ err x → IsOther x)
        → EndsOther (r, w)
    EndsOther-read (ok a) w h = tt
    EndsOther-read (err x) w h = h x refl

    pub FailsOther-query :
        {A : Type 0} (op : Store f → Result Error A)
        → ((s : Store f) (x : Error) → op s ≡ err x → IsOther x)
        → FailsOther (query f e op)
    unfolding query
    FailsOther-query op h = record {
      ends = λ w. elim (Bool-cases (e.fails w.calls)) [
        | inl down ↦ rw down database-IsOther
        | inr up ↦ rw up (EndsOther-read (op w.store) _ (h w.store))
      ];
    }

    pub FailsOther-list : {A : Type 0} (g : Store f → A) → FailsOther (query f e (λ s. ok (g s)))
    FailsOther-list g = FailsOther-query (λ s. ok (g s)) (λ s x h. absurd (cc h))

    EndsOther-written :
        (r : Result Error (Store f)) (w : World f)
        → ((x : Error) → r ≡ err x → IsOther x)
        → EndsOther (written f e w r)
    EndsOther-written (ok s) w h = tt
    EndsOther-written (err x) w h = h x refl

    pub FailsOther-execute :
        (op : Store f → Result Error (Store f))
        → ((s : Store f) (x : Error) → op s ≡ err x → IsOther x)
        → FailsOther (execute f e op)
    unfolding execute
    FailsOther-execute op h = record {
      ends = λ w. elim (Bool-cases (e.fails w.calls)) [
        | inl down ↦ rw down database-IsOther
        | inr up ↦ rw up (EndsOther-written (op w.store) _ (h w.store))
      ];
    }

    EndsOther-written_with :
        {A : Type 0} (r : Result Error (A × Store f)) (w : World f)
        → ((x : Error) → r ≡ err x → IsOther x)
        → EndsOther (written_with f e w r)
    EndsOther-written_with (ok (a, s)) w h = tt
    EndsOther-written_with (err x) w h = h x refl

    pub FailsOther-execute_for :
        {A : Type 0} (op : Store f → Result Error (A × Store f))
        → ((s : Store f) (x : Error) → op s ≡ err x → IsOther x)
        → FailsOther (execute_for f e op)
    unfolding execute_for
    FailsOther-execute_for op h = record {
      ends = λ w. elim (Bool-cases (e.fails w.calls)) [
        | inl down ↦ rw down database-IsOther
        | inr up ↦ rw up (EndsOther-written_with (op w.store) _ (h w.store))
      ];
    }

    pub FailsOther-audit :
        (actor action kind id : Str) (details : List (Str × Detail))
        → FailsOther (audit f e actor action kind id details)
    unfolding audit
    FailsOther-audit actor action kind id details = FailsOther-bind FailsOther-new_id λ new.
        FailsOther-bind FailsOther-now
          λ at. FailsOther-bind (FailsOther-attempt _) (λ done. FailsOther-pure tt)

    FailsOther-enqueue_all :
        (event id encoded : Str) (at : Time) (xs : List Subscription)
        → FailsOther (enqueue_all f e event id encoded at xs)
    unfolding enqueue_all
    FailsOther-enqueue_all event id encoded at [] = FailsOther-pure tt
    FailsOther-enqueue_all event id encoded at (x ∷ xs) = FailsOther-bind FailsOther-new_id λ new.
        FailsOther-bind (FailsOther-attempt _)
          (λ done. FailsOther-enqueue_all event id encoded at xs)

    FailsOther-encoded :
        (event id : Str) (xs : List Subscription) (o : Option Str)
        → FailsOther (elim o [
          | none ↦ pure {f = f} tt
          | some text ↦ now f e >>= λ at. enqueue_all f e event id text at xs
        ])
    FailsOther-encoded event id xs none = FailsOther-pure tt
    FailsOther-encoded event id xs (some text) =
        FailsOther-bind FailsOther-now (λ at. FailsOther-enqueue_all event id text at xs)

    FailsOther-deliver_to :
        (event id : Str) (payload : Payload) (r : Result Error (List Subscription))
        → FailsOther (deliver_to f e event id payload r)
    FailsOther-deliver_to event id payload (err x) = FailsOther-pure tt
    FailsOther-deliver_to event id payload (ok xs) =
        FailsOther-encoded event id xs (e.encode payload)

    pub FailsOther-emit :
        (event id : Str) (payload : Payload) → FailsOther (emit f e event id payload)
    unfolding emit
    FailsOther-emit event id payload =
        FailsOther-bind (FailsOther-attempt _) (λ r. FailsOther-deliver_to event id payload r)

pub ruleset failing = (
  FailsOther-bind, FailsOther-pure, FailsOther-refuse, FailsOther-attempt, FailsOther-branch,
  FailsOther-now, FailsOther-new_id, FailsOther-list, FailsOther-audit, FailsOther-emit,
  invalid_state-IsOther, conflict-IsOther, validation-IsOther,
)
