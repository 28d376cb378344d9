-- ===== src/Service/Lifecycle.antt =====
-- The stored configurations, the changes of their statuses, and what inserting and updating a row does
-- to them.
pub mod Operations
pub mod Sequences
use edge_rollout_control_ser.Base.{
  ℕ, ◌≤◌, ◌≡◌, refl, sym, ap, subst, Bool, true, false, not, Option, none, some, List, [], ◌∷◌,
  ◌++◌, Str, str_eq, str_eq→eq, str_eq_refl, if◌then◌else◌, Result, ok, err, Bool-cases,
  Option-cases, inl, inr, arith, ◌||◌,
}
use edge_rollout_control_ser.Base.Time.{Time}
use edge_rollout_control_ser.Base.Floats.{Floats}
use edge_rollout_control_ser.Configuration
use edge_rollout_control_ser.Configuration.{Configuration, status_tag, status_eq}
use edge_rollout_control_ser.Store.{Error, invalid_state, Store, row, update_rows, found}
use edge_rollout_control_ser.Store.Rows.{get_configuration}
use edge_rollout_control_ser.Store.Creation
use edge_rollout_control_ser.Store.Creation.{update_configuration_status, with_status}
use edge_rollout_control_ser.Service.Catalog.{
  CreateConfigurationCommand, create_configuration, publish_configuration, deprecate_configuration,
}
use edge_rollout_control_ser.Service.Triples.{
  From-query_bind, From-refuse, From-bind, From-now, From-execute,
}
use edge_rollout_control_ser.Service.Keeps.{Keeps, keeping, Keeps-execute}
use edge_rollout_control_ser.Service.Keeps.Beside.{IsBeside, Keeps-check}
use edge_rollout_control_ser.Service.Keeps.Rollouts.{IsApart}
use edge_rollout_control_ser.Service.{Env, World, Run, now, execute, ◌>>=◌, refuse, query}

-- Which status a configuration may get from which, `none` where there is no such configuration.
abbrev pub Edges : Type 0
Edges = Str → Option Configuration.Status → Configuration.Status → Bool

abbrev pub steps : Edges → Str → Option Configuration.Status → Configuration.Status → Bool
steps edges id none b = edges id none b
steps edges id (some a) b = status_eq a b || edges id (some a) b

-- Everything but the status and its time is as it was, and the status is what it was or has made one
-- of these changes.
abbrev pub Later : Edges → Str → Configuration → Configuration → Type 0
Later edges id a b =
    (b ≡ record a { status = b.status; updated_at = b.updated_at })
    × (steps edges id (some a.status) b.status ≡ true)

abbrev pub LaterAt : Edges → Str → Option Configuration → Option Configuration → Type 0
LaterAt edges id none none = Unit
LaterAt edges id none (some b) = edges id none b.status ≡ true
LaterAt edges id (some a) none = ⊥
LaterAt edges id (some a) (some b) = Later edges id a b

abbrev pub stored_at : Str → List Configuration → Option Configuration
stored_at id cs = row (λ (c : Configuration). c.id) id cs

-- No configuration is lost, and each is the same or a later one.
abbrev pub Grown : Edges → List Configuration → List Configuration → Type 0
Grown edges old new = (id : Str) → LaterAt edges id (stored_at id old) (stored_at id new)

Later-refl : (edges : Edges) (id : Str) (a : Configuration) → Later edges id a a
Later-refl edges id a = (refl, ground arith)

pub Grown-refl : (edges : Edges) (cs : List Configuration) → Grown edges cs cs
Grown-refl edges cs id = same (stored_at id cs)
  where
    same : (o : Option Configuration) → LaterAt edges id o o
    same none = tt
    same (some a) = Later-refl edges id a

-- A row that is appended is read where there was none.
pub stored_at-append :
    (edges : Edges) (id : Str) (cs : List Configuration) (c : Configuration)
    (o : Option Configuration)
    → edges id none c.status ≡ true
    → LaterAt edges id o (stored_at id cs)
    → LaterAt edges id o (stored_at id (cs ++ c ∷ []))
unfolding row
stored_at-append edges id [] c none new l = elim (Bool-cases (str_eq c.id id)) [
  | inl here ↦ rw here new
  | inr away ↦ rw away tt
]
stored_at-append edges id [] c (some a) new l = absurd l
stored_at-append edges id (x ∷ cs) c o new l = elim (Bool-cases (str_eq x.id id)) [
  | inl here ↦ rw here (rw here at l)
  | inr away ↦ rw away (stored_at-append edges id cs c o new (rw away at l))
]

module _ (status : Configuration.Status) (at : Time) (id k : Str) where
  abbrev pub set_at : List Configuration → List Configuration
  set_at cs = update_rows (λ (c : Configuration). c.id) (with_status status at) id cs

  abbrev pub set_if : Bool → Option Configuration → Option Configuration
  set_if b none = none
  set_if b (some c) = if b then some (with_status status at c) else some c

  pub stored_at-update_rows :
      (cs : List Configuration) → stored_at k (set_at cs) ≡ set_if (str_eq id k) (stored_at k cs)
  unfolding row update_rows
  stored_at-update_rows [] = refl
  stored_at-update_rows (c ∷ cs) =
      let rest = stored_at-update_rows cs in
      elim (Bool-cases (str_eq c.id id)) [
        | inl same ↦
            rw (same, str_eq→eq c.id id same)
              (elim (Bool-cases (str_eq id k)) [
                | inl here ↦ rw here refl
                | inr away ↦ rw away (rw away at rest)
              ])
        | inr other ↦ elim (Bool-cases (str_eq c.id k)) [
          | inl here ↦
              let apart : str_eq id k ≡ false = elim (Bool-cases (str_eq id k)) [
                | inl same ↦ absurd (cc (other, here, str_eq→eq id k same))
                | inr away ↦ away
              ] in
              rw (other, here, apart) refl
          | inr away ↦ rw (other, away) rest
        ]
      ]

  -- The status is set where the row that is read first may get it.
  pub LaterAt-set_if :
      (edges : Edges) (o p : Option Configuration)
      → LaterAt edges k o p
      → ((c : Configuration) (a : Option Configuration.Status)
          → str_eq id k ≡ true
          → p ≡ some c
          → steps edges k a c.status ≡ true
          → steps edges k a status ≡ true)
      → LaterAt edges k o (set_if (str_eq id k) p)
  LaterAt-set_if edges none none l h = tt
  LaterAt-set_if edges none (some c) l h = elim (Bool-cases (str_eq id k)) [
    | inl here ↦ rw here (h c none here refl l)
    | inr away ↦ rw away l
  ]
  LaterAt-set_if edges (some a) none l h = absurd l
  LaterAt-set_if edges (some a) (some c) l h = elim (Bool-cases (str_eq id k)) [
    | inl here ↦ rw here (cc l.0, h c (some a.status) here refl l.1)
    | inr away ↦ rw away l
  ]
