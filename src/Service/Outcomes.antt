-- ===== src/Service/Outcomes.antt =====
-- What a run makes of a property of the store, with its result: `Gives I m Q E` says that `m`, from
-- a store with I, returns an `a` in a store with `Q a`, or fails in a store with E.
use edge_rollout_control_ser.Base.{
  suc, ◌≡◌, refl, Bool, true, false, Option, none, some, List, [], ◌∷◌, Str, Result, ok, err,
  Bool-cases, inl, inr,
}
use edge_rollout_control_ser.Base.Floats.{Floats}
use edge_rollout_control_ser.Base.Time.{Time}
use edge_rollout_control_ser.Audit
use edge_rollout_control_ser.Webhook.{Subscription}
use edge_rollout_control_ser.Store.{Error, Store}
use edge_rollout_control_ser.Service.{
  Env, World, Run, Payload, pure, fail, refuse, attempt, continue, ◌>>=◌, now, new_id, query,
  execute, written, audit, emit, enqueue_all, deliver_to,
}
use edge_rollout_control_ser.Service.Creation.{transaction, commit}
use edge_rollout_control_ser.Service.Triples.{From, From-audit, From-emit, IsAside}

module _ {f : Floats} where
  -- The outcome of a run in its store.
  abbrev pub Ends :
      {A : Type 0} → (A → Store f → Type 0) → (Store f → Type 0) → Result Error A × World f → Type 0
  Ends Q E (ok a, w) = Q a w.store
  Ends Q E (err x, w) = E w.store

  pub record Gives {A : Type 0} (I : Store f → Type 0) (m : Run f A) (Q : A → Store f → Type 0)
      (E : Store f → Type 0) : Type 0 where
    pub ends : (w : World f) → I w.store → Ends Q E (m w)

  Ends-continue :
      {A B : Type 0} (Q : A → Store f → Type 0) (R : B → Store f → Type 0) (E : Store f → Type 0)
      (k : A → Run f B)
      → ((a : A) → Gives (Q a) (k a) R E)
      → (x : Result Error A × World f) → Ends Q E x
      → Ends R E (continue x.0 k x.1)
  Ends-continue Q R E k q (ok a, v) h = (q a).ends v h
  Ends-continue Q R E k q (err x, v) h = h

  pub Gives-bind :
      {A B : Type 0} (I : Store f → Type 0) (Q : A → Store f → Type 0) (R : B → Store f → Type 0)
      (E : Store f → Type 0) (m : Run f A) (k : A → Run f B)
      → Gives I m Q E
      → ((a : A) → Gives (Q a) (k a) R E)
      → Gives I (m >>= k) R E
  unfolding ◌>>=◌
  Gives-bind I Q R E m k p q = record { ends = λ w i. Ends-continue Q R E k q (m w) (p.ends w i) }

  pub Gives-pure :
      {A : Type 0} (I : Store f → Type 0) (Q : A → Store f → Type 0) (E : Store f → Type 0) (a : A)
      → ((s : Store f) → I s → Q a s)
      → Gives I (pure a) Q E
  unfolding pure
  Gives-pure I Q E a out = record { ends = λ w i. out w.store i }

  pub Gives-fail :
      {A : Type 0} (I : Store f → Type 0) (Q : A → Store f → Type 0) (E : Store f → Type 0)
      (x : Error)
      → ((s : Store f) → I s → E s)
      → Gives I (fail x) Q E
  unfolding fail
  Gives-fail I Q E x out = record { ends = λ w i. out w.store i }

  -- What is known whatever the store is may be used.
  pub Gives-fact :
      {A F : Type 0} (I : Store f → Type 0) (Q : A → Store f → Type 0) (E : Store f → Type 0)
      (m : Run f A)
      → ((s : Store f) → I s → F)
      → (F → Gives I m Q E)
      → Gives I m Q E
  Gives-fact I Q E m p q = record { ends = λ w i. (q (p w.store i)).ends w i }

  pub Gives-before :
      {A : Type 0} (I K : Store f → Type 0) (Q : A → Store f → Type 0) (E : Store f → Type 0)
      (m : Run f A)
      → ((s : Store f) → I s → K s)
      → Gives K m Q E
      → Gives I m Q E
  Gives-before I K Q E m p q = record { ends = λ w i. q.ends w (p w.store i) }

  Ends-after :
      {A : Type 0} (Q R : A → Store f → Type 0) (E : Store f → Type 0)
      (x : Result Error A × World f)
      → ((a : A) (s : Store f) → Q a s → R a s)
      → Ends Q E x
      → Ends R E x
  Ends-after Q R E (ok a, w) out h = out a w.store h
  Ends-after Q R E (err x, w) out h = h

  pub Gives-after :
      {A : Type 0} (I : Store f → Type 0) (Q R : A → Store f → Type 0) (E : Store f → Type 0)
      (m : Run f A)
      → ((a : A) (s : Store f) → Q a s → R a s)
      → Gives I m Q E
      → Gives I m R E
  Gives-after I Q R E m out p = record { ends = λ w i. Ends-after Q R E (m w) out (p.ends w i) }

  pub Gives-refuse :
      {B : Type 0} (I : Store f → Type 0) (R : B → Store f → Type 0) (E : Store f → Type 0)
      (failed : Bool) (x : Error) (k : Unit {0} → Run f B)
      → ((s : Store f) → I s → E s)
      → (failed ≡ false → Gives I (k tt) R E)
      → Gives I (refuse failed x >>= k) R E
  unfolding ◌>>=◌ refuse
  Gives-refuse I R E true x k out q = record { ends = λ w i. out w.store i }
  Gives-refuse I R E false x k out q = record { ends = λ w i. (q refl).ends w i }

  -- Nothing that a run does to the store breaks I, and its failure is a value.
  pub Gives-attempt :
      {A : Type 0} (I : Store f → Type 0) (E : Store f → Type 0) (m : Run f A)
      → From I m I
      → Gives I (attempt m) (λ r. I) E
  unfolding attempt
  Gives-attempt I E m p = record { ends = λ w i. p.leads w i }

  module _ (e : Env) where
    pub Gives-now : (I E : Store f → Type 0) → Gives I (now f e) (λ at. I) E
    unfolding now
    Gives-now I E = record { ends = λ w i. i }

    pub Gives-new_id : (I E : Store f → Type 0) → Gives I (new_id f e) (λ id. I) E
    unfolding new_id
    Gives-new_id I E = record { ends = λ w i. i }

    Ends-query :
        {A : Type 0} (I E : Store f → Type 0) (w : World f) (v : Result Error A)
        (same : Store f → Result Error A)
        → same w.store ≡ v
        → ((s : Store f) → I s → E s)
        → I w.store
        → Ends (λ a s. I s × (same s ≡ ok a)) E (v, record w { calls = suc w.calls })
    Ends-query I E w (ok a) same h out i = (i, h)
    Ends-query I E w (err x) same h out i = out w.store i

    -- A value that was read is known to be in the store.
    pub Gives-query :
        {A : Type 0} (I E : Store f → Type 0) (op : Store f → Result Error A)
        → ((s : Store f) → I s → E s)
        → Gives I (query f e op) (λ a s. I s × (op s ≡ ok a)) E
    unfolding query
    Gives-query I E op out = record {
      ends = λ w i. elim (Bool-cases (e.fails w.calls)) [
        | inl h ↦ rw h (out w.store i)
        | inr h ↦ rw h (Ends-query I E w (op w.store) op refl out i)
      ];
    }

    Ends-written :
        (J E : Store f → Type 0) (w : World f) (r : Result Error (Store f))
        → E w.store
        → ((t : Store f) → r ≡ ok t → J t)
        → Ends (λ u. J) E (written f e (record w { calls = suc w.calls }) r)
    Ends-written J E w (ok t) out q = q t refl
    Ends-written J E w (err x) out q = out

    pub Gives-execute :
        (I J E : Store f → Type 0) (op : Store f → Result Error (Store f))
        → ((s : Store f) → I s → E s)
        → ((s t : Store f) → I s → op s ≡ ok t → J t)
        → Gives I (execute f e op) (λ u. J) E
    unfolding execute
    Gives-execute I J E op out q = record {
      ends = λ w i. elim (Bool-cases (e.fails w.calls)) [
        | inl h ↦ rw h (out w.store i)
        | inr h ↦ rw h (Ends-written J E w (op w.store) (out w.store i) (λ t k. q w.store t i k))
      ];
    }

    Ends-commit :
        {A : Type 0} (Q : A → Store f → Type 0) (E : Store f → Type 0) (before : Store f)
        (x : Result Error A × World f)
        → E before
        → Ends Q (λ s. Unit {0}) x
        → Ends Q E (commit f e before x)
    Ends-commit Q E before (err x, w) out h = out
    Ends-commit Q E before (ok a, w) out h = elim (Bool-cases (e.fails w.calls)) [
      | inl k ↦ rw k out
      | inr k ↦ rw k h
    ]

    -- A transaction does what its statements do, or nothing.
    pub Gives-transaction :
        {A : Type 0} (I : Store f → Type 0) (Q : A → Store f → Type 0) (E : Store f → Type 0)
        (m : Run f A)
        → ((s : Store f) → I s → E s)
        → Gives I m Q (λ s. Unit {0})
        → Gives I (transaction f e m) Q E
    unfolding transaction
    Gives-transaction I Q E m out p = record {
      ends = λ w i. elim (Bool-cases (e.fails w.calls)) [
        | inl h ↦ rw h (out w.store i)
        | inr h ↦ rw h (
            Ends-commit Q E w.store (m (record w { calls = suc w.calls })) (out w.store i)
              (p.ends (record w { calls = suc w.calls }) i))
      ];
    }

-- A run that never fails.
abbrev IsSure : {f : Floats} → Run f (Unit {0}) → Type 0
IsSure {f} m = (w : World f) → (m w).0 ≡ ok tt

module _ {f : Floats} where
  Ends-sure :
      (I E : Store f → Type 0) (x : Result Error (Unit {0}) × World f)
      → x.0 ≡ ok tt
      → I x.1.store
      → Ends (λ u. I) E x
  Ends-sure I E (ok a, w) h i = i
  Ends-sure I E (err x, w) h i = absurd cc

  Gives_sure :
      (I E : Store f → Type 0) (m : Run f (Unit {0})) → From I m I → IsSure m → Gives I m (λ u. I) E
  Gives_sure I E m p sure = record { ends = λ w i. Ends-sure I E (m w) (sure w) (p.leads w i) }

  module _ (e : Env) where
    audit-IsSure :
        (actor action kind id : Str) (details : List (Str × Audit.Detail))
        → IsSure (audit f e actor action kind id details)
    unfolding audit ◌>>=◌ attempt new_id now pure
    audit-IsSure actor action kind id details w = refl

    enqueue_all-IsSure :
        (event id encoded : Str) (at : Time) (xs : List Subscription)
        → IsSure (enqueue_all f e event id encoded at xs)
    unfolding enqueue_all ◌>>=◌ attempt new_id pure
    enqueue_all-IsSure event id encoded at [] w = refl
    enqueue_all-IsSure event id encoded at (x ∷ xs) w = enqueue_all-IsSure event id encoded at xs _

    deliver_to-IsSure :
        (event id : Str) (payload : Payload) (r : Result Error (List Subscription))
        → IsSure (deliver_to f e event id payload r)
    unfolding ◌>>=◌ now pure
    deliver_to-IsSure event id payload (err x) w = refl
    deliver_to-IsSure event id payload (ok xs) w = encoded (e.encode payload)
      where
        encoded :
            (o : Option Str)
            → (elim o as (λ x. Run f (Unit {0})) [
              | none ↦ pure tt
              | some text ↦ now f e >>= λ at. enqueue_all f e event id text at xs
            ]
                w).0
              ≡ ok tt
        encoded none = refl
        encoded (some text) = enqueue_all-IsSure event id text _ xs _

    emit-IsSure : (event id : Str) (payload : Payload) → IsSure (emit f e event id payload)
    unfolding emit ◌>>=◌ attempt
    emit-IsSure event id payload w = deliver_to-IsSure event id payload _ _

    -- Auditing and emitting never fail, and keep what does not look at their tables.
    pub Gives-audit :
        (I E : Store f → Type 0) (actor action kind id : Str) (details : List (Str × Audit.Detail))
        → IsAside I
        → Gives I (audit f e actor action kind id details) (λ u. I) E
    Gives-audit I E actor action kind id details a =
        Gives_sure I E _ (From-audit e I actor action kind id details a)
          (audit-IsSure actor action kind id details)

    pub Gives-emit :
        (I E : Store f → Type 0) (event id : Str) (payload : Payload)
        → IsAside I
        → Gives I (emit f e event id payload) (λ u. I) E
    Gives-emit I E event id payload a =
        Gives_sure I E _ (From-emit e I event id payload a) (emit-IsSure event id payload)
