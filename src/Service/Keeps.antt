-- ===== src/Service/Keeps.antt =====
-- Runs that keep a property of the store: one rule for each construct, so that `search` goes through
-- an operation.
pub mod Beside
pub mod Receiving
pub mod Rollouts
use edge_rollout_control_ser.Base.{
  ◌≡◌, sym, subst, Bool, true, false, List, Str, Result, ok, if◌then◌else◌,
}
use edge_rollout_control_ser.Base.Floats.{Floats}
use edge_rollout_control_ser.Store.{Error, Store}
use edge_rollout_control_ser.Audit.{Detail}
use edge_rollout_control_ser.Service.{
  Env, Run, Payload, pure, fail, refuse, attempt, ◌>>=◌, now, new_id, query, execute, audit, emit,
}
use edge_rollout_control_ser.Service.Triples.{
  From, From-bind, From-pure, From-fail, From-now, From-new_id, From-query, From-attempt,
  From-execute, From-audit, From-emit, From_branch, IsAside,
}

-- A run that keeps a property of the store, whether it returns or fails.
pub record Keeps {f : Floats} {A : Type 0} (I : Store f → Type 0) (m : Run f A) : Type 0 where
  pub keeps : From I m I

module _ {f : Floats} {I : Store f → Type 0} where
  pub Keeps-bind :
      {A B : Type 0} {m : Run f A} {k : A → Run f B}
      → Keeps I m
      → ((a : A) → Keeps I (k a))
      → Keeps I (m >>= k)
  Keeps-bind p q = record { keeps = From-bind I I I _ _ p.keeps (λ s i. i) (λ a. (q a).keeps) }

  pub Keeps-refuse : (failed : Bool) (x : Error) → Keeps {f = f} I (refuse failed x)
  unfolding refuse
  Keeps-refuse true x = record { keeps = record { leads = λ w i. i } }
  Keeps-refuse false x = record { keeps = record { leads = λ w i. i } }

  pub Keeps-pure : {A : Type 0} (a : A) → Keeps {f = f} I (pure a)
  Keeps-pure a = record { keeps = From-pure I a }

  pub Keeps-fail : {A : Type 0} (x : Error) → Keeps {f = f} {A = A} I (fail x)
  Keeps-fail x = record { keeps = From-fail I x }

  pub Keeps-attempt : {A : Type 0} {m : Run f A} → Keeps I m → Keeps I (attempt m)
  Keeps-attempt p = record { keeps = From-attempt I I _ p.keeps }

  pub Keeps-branch :
      {A : Type 0} (b : Bool) (m n : Run f A) → Keeps I m → Keeps I n → Keeps I (if b then m else n)
  Keeps-branch b m n p q = record { keeps = From_branch I I b _ _ p.keeps q.keeps }

  module _ (e : Env) where
    pub Keeps-now : Keeps I (now f e)
    Keeps-now = record { keeps = From-now e I }

    pub Keeps-new_id : Keeps I (new_id f e)
    Keeps-new_id = record { keeps = From-new_id e I }

    pub Keeps-query : {A : Type 0} (op : Store f → Result Error A) → Keeps I (query f e op)
    Keeps-query op = record { keeps = From-query e I op }

    pub Keeps-execute :
        (op : Store f → Result Error (Store f))
        → ((s t : Store f) → I s → op s ≡ ok t → I t)
        → Keeps I (execute f e op)
    Keeps-execute op same = record { keeps = From-execute e I I _ (λ s i. i) same }

    pub Keeps-audit :
        (actor action kind id : Str) (details : List (Str × Detail))
        → IsAside I
        → Keeps I (audit f e actor action kind id details)
    Keeps-audit actor action kind id details a = record {
      keeps = From-audit e I actor action kind id details a;
    }

    pub Keeps-emit :
        (event id : Str) (payload : Payload) → IsAside I → Keeps I (emit f e event id payload)
    Keeps-emit event id payload a = record { keeps = From-emit e I event id payload a }

pub ruleset keeping = (
  Keeps-bind, Keeps-refuse, Keeps-pure, Keeps-fail, Keeps-attempt, Keeps-branch, Keeps-now,
  Keeps-new_id, Keeps-query, Keeps-audit, Keeps-emit,
)

-- A statement that writes one table only.
pub Keeps-table :
    {f : Floats} {I : Store f → Type 0} {T : Type 0} (e : Env)
    (op : Store f → Result Error (Store f)) (table : Store f → T) (write : Store f → T → Store f)
    → ((s : Store f) (x : T) → I s → I (write s x))
    → ((s t : Store f) → op s ≡ ok t → write s (table t) ≡ t)
    → Keeps I (execute f e op)
Keeps-table {I = I} e op table write keeps only =
    Keeps-execute e op (λ s t i h. subst I (only s t h) (keeps s (table t) i))
