-- ===== src/Service/Triples.antt =====
-- What a run makes of a property of the store: `From I m J` says that `m` leads from I to J, whether
-- it returns or fails. A property that does not look at the audit events and the deliveries goes
-- through auditing and emitting.
use edge_rollout_control_ser.Base.{
  if◌then◌else◌, suc, ◌≡◌, subst, refl, Bool, true, false, Option, none, some, List, [], ◌∷◌, ◌++◌,
  Str, Result, ok, err, Bool-cases, inl, inr, arith,
}
use edge_rollout_control_ser.Base.Time.{Time}
use edge_rollout_control_ser.Base.Floats.{Floats}
use edge_rollout_control_ser.Audit
use edge_rollout_control_ser.Webhook.{Subscription, Delivery}
use edge_rollout_control_ser.Store.{Error, Store}
use edge_rollout_control_ser.Store.Rows.{append_audit, enqueue_delivery}
use edge_rollout_control_ser.Service.{
  Env, World, Run, Payload, pure, fail, refuse, attempt, continue, ◌>>=◌, now, new_id, query,
  execute, execute_for, written, written_with, audit, emit, enqueue_all, deliver_to,
}

module _ {f : Floats} where
  pub record From {A : Type 0} (I : Store f → Type 0) (m : Run f A) (J : Store f → Type 0)
      : Type 0 where
    pub leads : (w : World f) → I w.store → J (m w).1.store

  From-continue :
      {A B : Type 0} (K J : Store f → Type 0) (k : A → Run f B)
      → ((s : Store f) → K s → J s)
      → ((a : A) → From K (k a) J)
      → (x : Result Error A × World f) → K x.1.store
      → J (continue x.0 k x.1).1.store
  From-continue K J k out q (ok a, v) j = (q a).leads v j
  From-continue K J k out q (err x, v) j = out v.store j

  pub From-bind :
      {A B : Type 0} (I K J : Store f → Type 0) (m : Run f A) (k : A → Run f B)
      → From I m K
      → ((s : Store f) → K s → J s)
      → ((a : A) → From K (k a) J)
      → From I (m >>= k) J
  unfolding ◌>>=◌
  From-bind I K J m k p out q = record {
    leads = λ w i. From-continue K J k out q (m w) (p.leads w i);
  }

  pub From-refuse :
      {B : Type 0} (I J : Store f → Type 0) (failed : Bool) (x : Error) (k : Unit {0} → Run f B)
      → ((s : Store f) → I s → J s)
      → (failed ≡ false → From I (k tt) J)
      → From I (refuse failed x >>= k) J
  unfolding ◌>>=◌ refuse
  From-refuse I J true x k out q = record { leads = λ w i. out w.store i }
  From-refuse I J false x k out q = record { leads = λ w i. (q refl).leads w i }

  pub From-before :
      {A : Type 0} (I K J : Store f → Type 0) (m : Run f A)
      → ((s : Store f) → I s → K s)
      → From K m J
      → From I m J
  From-before I K J m p q = record { leads = λ w i. q.leads w (p w.store i) }

  -- What a property of the store says of other things may be used.
  pub From-fact :
      {A F : Type 0} (I J : Store f → Type 0) (m : Run f A)
      → ((s : Store f) → I s → F)
      → (F → From I m J)
      → From I m J
  From-fact I J m p q = record { leads = λ w i. (q (p w.store i)).leads w i }

  pub From_branch :
      {A : Type 0} (I J : Store f → Type 0) (b : Bool) (m n : Run f A)
      → From I m J
      → From I n J
      → From I (if b then m else n) J
  From_branch I J true m n p q = p
  From_branch I J false m n p q = q

  pub From-attempt :
      {A : Type 0} (I J : Store f → Type 0) (m : Run f A) → From I m J → From I (attempt m) J
  unfolding attempt
  From-attempt I J m p = record { leads = p.leads }

  pub From-pure : {A : Type 0} (I : Store f → Type 0) (a : A) → From I (pure a) I
  unfolding pure
  From-pure I a = record { leads = λ w i. i }

  -- What does not look at the audit events and the deliveries.
  pub record IsAside (I : Store f → Type 0) : Type 0 where
    pub audits : (s : Store f) (x : List Audit.Event) → I s → I (record s { audit_events = x })
    pub delivers : (s : Store f) (x : List Delivery) → I s → I (record s { deliveries = x })

  pub From-fail : {A : Type 0} (I : Store f → Type 0) (x : Error) → From {A = A} I (fail x) I
  unfolding fail
  From-fail I x = record { leads = λ w i. i }

  module _ (e : Env) where
    pub From-now : (I : Store f → Type 0) → From I (now f e) I
    unfolding now
    From-now I = record { leads = λ w i. i }

    pub From-new_id : (I : Store f → Type 0) → From I (new_id f e) I
    unfolding new_id
    From-new_id I = record { leads = λ w i. i }

    pub From-query :
        {A : Type 0} (I : Store f → Type 0) (op : Store f → Result Error A)
        → From I (query f e op) I
    unfolding query
    From-query I op = record {
      leads = λ w i. elim (Bool-cases (e.fails w.calls)) [ inl h ↦ rw h i | inr h ↦ rw h i ];
    }

    From-read :
        {A B : Type 0} (J : Store f → Type 0) (k : A → Run f B) (v : World f) (r : Result Error A)
        → J v.store
        → ((a : A) → r ≡ ok a → J (k a v).1.store)
        → J (continue r k v).1.store
    From-read J k v (ok a) out q = q a refl
    From-read J k v (err x) out q = out

    -- A value that was read is known to be in the store.
    pub From-query_bind :
        {A B : Type 0} (I J : Store f → Type 0) (op : Store f → Result Error A) (k : A → Run f B)
        → ((s : Store f) → I s → J s)
        → ((a : A) → From (λ s. I s × (op s ≡ ok a)) (k a) J)
        → From I (query f e op >>= k) J
    unfolding query ◌>>=◌
    From-query_bind I J op k out q = record {
      leads = λ w i. elim (Bool-cases (e.fails w.calls)) [
        | inl h ↦ rw h (out w.store i)
        | inr h ↦ rw h (
            From-read J k (record w { calls = suc w.calls }) (op w.store) (out w.store i)
              (λ a r. (q a).leads (record w { calls = suc w.calls }) (i, r)))
      ];
    }

    From-written :
        (J : Store f → Type 0) (w : World f) (r : Result Error (Store f))
        → J w.store
        → ((t : Store f) → r ≡ ok t → J t)
        → J (written f e (record w { calls = suc w.calls }) r).1.store
    From-written J w (ok t) out q = q t refl
    From-written J w (err x) out q = out

    pub From-execute :
        (I J : Store f → Type 0) (op : Store f → Result Error (Store f))
        → ((s : Store f) → I s → J s)
        → ((s t : Store f) → I s → op s ≡ ok t → J t)
        → From I (execute f e op) J
    unfolding execute
    From-execute I J op out q = record {
      leads = λ w i. elim (Bool-cases (e.fails w.calls)) [
        | inl h ↦ rw h (out w.store i)
        | inr h ↦ rw h (From-written J w (op w.store) (out w.store i) (λ t k. q w.store t i k))
      ];
    }

    From-written_with :
        {A : Type 0} (J : Store f → Type 0) (w : World f) (r : Result Error (A × Store f))
        → J w.store
        → ((a : A) (t : Store f) → r ≡ ok (a, t) → J t)
        → J (written_with f e (record w { calls = suc w.calls }) r).1.store
    From-written_with J w (ok (a, t)) out q = q a t refl
    From-written_with J w (err x) out q = out

    pub From-execute_for :
        {A : Type 0} (I J : Store f → Type 0) (op : Store f → Result Error (A × Store f))
        → ((s : Store f) → I s → J s)
        → ((a : A) (s t : Store f) → I s → op s ≡ ok (a, t) → J t)
        → From I (execute_for f e op) J
    unfolding execute_for
    From-execute_for I J op out q = record {
      leads = λ w i. elim (Bool-cases (e.fails w.calls)) [
        | inl h ↦ rw h (out w.store i)
        | inr h ↦
            rw h (From-written_with J w (op w.store) (out w.store i) (λ a t k. q a w.store t i k))
      ];
    }

    From-wrote :
        {A B : Type 0} (J : Store f → Type 0) (k : A → Run f B) (w : World f)
        (r : Result Error (A × Store f))
        → J w.store
        → ((a : A) (v : World f) → r ≡ ok (a, v.store) → J (k a v).1.store)
        → let x = written_with f e (record w { calls = suc w.calls }) r in
          J (continue x.0 k x.1).1.store
    From-wrote J k w (ok (a, t)) out q = q a (record w { calls = suc w.calls; store = t }) refl
    From-wrote J k w (err x) out q = out

    -- A statement that writes and returns a value, and what follows.
    pub From-execute_for_bind :
        {A B : Type 0} (I J : Store f → Type 0) (op : Store f → Result Error (A × Store f))
        (k : A → Run f B)
        → ((s : Store f) → I s → J s)
        → ((a : A) → From (λ t. (s : Store f) × I s × (op s ≡ ok (a, t))) (k a) J)
        → From I (execute_for f e op >>= k) J
    unfolding execute_for ◌>>=◌
    From-execute_for_bind I J op k out q = record {
      leads = λ w i. elim (Bool-cases (e.fails w.calls)) [
        | inl h ↦ rw h (out w.store i)
        | inr h ↦
            rw h (
              From-wrote J k w (op w.store) (out w.store i)
                (λ a v r. (q a).leads v (w.store, i, r)))
      ];
    }

    appended :
        (I : Store f → Type 0) (a : IsAside I) (s : Store f) (x : Audit.Event) (t : Store f)
        → I s
        → append_audit f s x ≡ ok t
        → I t
    unfolding append_audit
    appended I a s x t i h =
        let is_t : record s { audit_events = s.audit_events ++ x ∷ [] } ≡ t = ground arith in
        subst I is_t (a.audits s (s.audit_events ++ x ∷ []) i)

    enqueued :
        (I : Store f → Type 0) (a : IsAside I) (s : Store f) (d : Delivery) (t : Store f)
        → I s
        → enqueue_delivery f s d ≡ ok t
        → I t
    unfolding enqueue_delivery
    enqueued I a s d t i h =
        let is_t : record s { deliveries = s.deliveries ++ d ∷ [] } ≡ t = ground arith in
        subst I is_t (a.delivers s (s.deliveries ++ d ∷ []) i)

    pub From-audit :
        (I : Store f → Type 0) (actor action kind id : Str) (details : List (Str × Audit.Detail))
        → IsAside I
        → From I (audit f e actor action kind id details) I
    unfolding audit
    From-audit I actor action kind id details a =
        From-bind I I I _ _ (From-new_id I) (λ s i. i)
          λ new.
            From-bind I I I _ _ (From-now I) (λ s i. i)
              λ at.
                From-bind I I I _ _
                  (From-attempt I I _
                    (From-execute I I _ (λ s i. i) (λ s t i h. appended I a s _ t i h)))
                  (λ s i. i) (λ done. From-pure I tt)

    From-enqueue_all :
        (I : Store f → Type 0) (event id encoded : Str) (at : Time) (xs : List Subscription)
        → IsAside I
        → From I (enqueue_all f e event id encoded at xs) I
    unfolding enqueue_all
    From-enqueue_all I event id encoded at [] a = From-pure I tt
    From-enqueue_all I event id encoded at (x ∷ xs) a =
        From-bind I I I _ _ (From-new_id I) (λ s i. i)
          λ new.
            From-bind I I I _ _
              (From-attempt I I _
                (From-execute I I _ (λ s i. i) (λ s t i h. enqueued I a s _ t i h)))
              (λ s i. i) (λ done. From-enqueue_all I event id encoded at xs a)

    From-deliver_to :
        (I : Store f → Type 0) (event id : Str) (payload : Payload)
        (r : Result Error (List Subscription))
        → IsAside I
        → From I (deliver_to f e event id payload r) I
    From-deliver_to I event id payload (err x) a = From-pure I tt
    From-deliver_to I event id payload (ok xs) a = encoded (e.encode payload)
      where
        encoded :
            (o : Option Str)
            → From I
                (elim o [
                  | none ↦ pure tt
                  | some text ↦ now f e >>= λ at. enqueue_all f e event id text at xs
                ])
                I
        encoded none = From-pure I tt
        encoded (some text) =
            From-bind I I I _ _ (From-now I) (λ s i. i)
              λ at. From-enqueue_all I event id text at xs a

    pub From-emit :
        (I : Store f → Type 0) (event id : Str) (payload : Payload)
        → IsAside I
        → From I (emit f e event id payload) I
    unfolding emit
    From-emit I event id payload a =
        From-bind I I I _ _ (From-attempt I I _ (From-query I _)) (λ s i. i)
          (λ r. From-deliver_to I event id payload r a)
