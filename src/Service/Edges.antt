-- ===== src/Service/Edges.antt =====
-- The statuses of rollouts in the table and the moves between them, and what updating a row does to
-- them.
pub mod Kinds
pub mod Reading
pub mod Operations
pub mod Reconciling
pub mod Sequences
use edge_rollout_control_ser.Base.{
  ℕ, ◌≡◌, refl, sym, ◌∙◌, ap, subst, Bool, true, false, not, ◌||◌, ◌&&◌, Option, none, some, List,
  [], ◌∷◌, Str, str_eq, str_eq→eq, str_eq_refl, if◌then◌else◌, Result, ok, err, Bool-cases, inl,
  inr, arith, bytes, is_empty, Option-cases,
}
use edge_rollout_control_ser.Base.Time.{Time}
use edge_rollout_control_ser.Base.Int.{ℤ, pos, ltb_ℤ}
use edge_rollout_control_ser.Base.Floats.{Floats}
use edge_rollout_control_ser.Rollout.{
  Status, paused, cancelled, rolling_back, draft, running, completed, rolled_back, status_eq,
  Rollout, Target, TargetStatus, target_eq, terminal,
}
use edge_rollout_control_ser.Rollout.Machine.{can_transition}
use edge_rollout_control_ser.Audit.{Detail}
use edge_rollout_control_ser.Store.{Error, Store, row, update_rows}
use edge_rollout_control_ser.Store.Rows.{
  get_rollout, update_rollout, write_rollout, read_rollout, read_one, get_rule,
}
use edge_rollout_control_ser.Store.Targets.{update_target, list_targets, count_target_states}
use edge_rollout_control_ser.Service.{
  Env, World, Run, Payload, of_rollout, pure, attempt, ◌>>=◌, ◌>>◌, now, query, execute, audit,
  emit, refuse,
}
use edge_rollout_control_ser.Service.Steps
use edge_rollout_control_ser.Service.Steps.{
  activate_all, activate_batch, announce, start_rollout, started, pause_rollout, cancel_rollout,
  rollback_rollout, roll_back_all, can_roll_back,
}
use edge_rollout_control_ser.Service.Keeps.Beside.{IsBeside}
use edge_rollout_control_ser.Service.Triples.{
  From, From-fact, From-before, From-bind, From-refuse, From-attempt, From-pure, From-now,
  From-query, From-query_bind, From-execute, From-audit, From-emit, IsAside,
}

-- The status of a rollout in the table.
unfoldable pub status_at : List Rollout → Str → Option Status
status_at [] id = none
status_at (r ∷ rs) id = let rest = status_at rs id in if str_eq r.id id then some r.status else rest

-- Which status a rollout may get from which, `none` where there is no such rollout.
abbrev pub Edges : Type 0
Edges = Str → Option Status → Status → Bool

abbrev pub steps : Edges → Str → Status → Status → Bool
steps edges id a b = status_eq a b || edges id (some a) b

-- Any number of these changes.
pub data Moves (edges : Edges) (id : Str) (a : Option Status) : Option Status → Type 0 where
  stay : Moves edges id a a
  begin : (c : Status) → Moves edges id a none → edges id none c ≡ true → Moves edges id a (some c)
  move :
      {b : Status} (c : Status)
      → Moves edges id a (some b)
      → steps edges id b c ≡ true
      → Moves edges id a (some c)

pub by_edge :
    (edges : Edges) (id : Str) (a b : Status)
    → edges id (some a) b ≡ true
    → steps edges id a b ≡ true
by_edge edges id a b h = ground arith

-- Each rollout has moved from its status in σ.
abbrev pub Reached : Edges → (Str → Option Status) → List Rollout → Type 0
Reached edges σ rs = (k : Str) → Moves edges k (σ k) (status_at rs k)

-- ... and a rollout that was read still has the status that was read.
abbrev pub Held : Edges → (Str → Option Status) → Rollout → List Rollout → Type 0
Held edges σ r rs = Reached edges σ rs × (status_at rs r.id ≡ some r.status)

pub ok-inj : {a b : Rollout} → ◌≡◌ {A = Result Error Rollout} (ok a) (ok b) → a ≡ b
ok-inj e = cc e

some-inj : {a b : Rollout} → some a ≡ some b → a ≡ b
some-inj e = cc e

pub row_id :
    (id : Str) (rs : List Rollout) (r : Rollout)
    → row (λ (x : Rollout). x.id) id rs ≡ some r
    → r.id ≡ id
unfolding row
row_id id [] r h = absurd cc
row_id id (x ∷ rs) r h = elim (Bool-cases (str_eq x.id id)) [
  | inl same ↦ ap (λ (y : Rollout). y.id) (sym (some-inj (rw same at h))) ∙ str_eq→eq x.id id same
  | inr other ↦ row_id id rs r (rw other at h)
]

pub status_at-row :
    (id : Str) (rs : List Rollout) (r : Rollout)
    → row (λ (x : Rollout). x.id) id rs ≡ some r
    → status_at rs id ≡ some r.status
unfolding row status_at
status_at-row id [] r h = absurd cc
status_at-row id (x ∷ rs) r h = elim (Bool-cases (str_eq x.id id)) [
  | inl same ↦ rw same (ap (λ (y : Rollout). some y.status) (some-inj (rw same at h)))
  | inr other ↦ rw other (status_at-row id rs r (rw other at h))
]

apart : (a b c : Str) → a ≡ c → str_eq a b ≡ false → str_eq b c ≡ false
apart a b c e h = elim (Bool-cases (str_eq b c)) [
  | inl k ↦ absurd (cc (h, e, str_eq→eq b c k, str_eq_refl c))
  | inr k ↦ k
]

status_at-update_rows :
    (r : Rollout) (rs : List Rollout) (k : Str)
    → status_at (update_rows (λ (x : Rollout). x.id) (write_rollout r) r.id rs) k ≡ (
        if str_eq r.id k
        then elim (status_at rs k) [ none ↦ none | some old ↦ some r.status ]
        else status_at rs k)
unfolding update_rows status_at
status_at-update_rows r [] k = elim (Bool-cases (str_eq r.id k)) [
  | inl h ↦ rw h refl
  | inr h ↦ rw h refl
]
status_at-update_rows r (x ∷ rs) k =
    let rest = status_at-update_rows r rs k in
    elim (Bool-cases (str_eq x.id r.id)) [
      | inl same ↦ elim (Bool-cases (str_eq r.id k)) [
        | inl here ↦
            let there : str_eq x.id k ≡ true = rw (str_eq→eq x.id r.id same) here in
            rw (same, here, there) refl
        | inr other ↦
            let away : str_eq x.id k ≡ false = rw (str_eq→eq x.id r.id same) other in
            rw (same, other, away) (rw other at rest)
      ]
      | inr differs ↦ elim (Bool-cases (str_eq x.id k)) [
        | inl here ↦
            let not_r : str_eq r.id k ≡ false = apart x.id r.id k (str_eq→eq x.id k here) differs in
            rw (differs, here, not_r) refl
        | inr other ↦ rw (differs, other) rest
      ]
    ]

pub moved_at :
    (edges : Edges) (σ : Str → Option Status) (r q : Rollout) (rs : List Rollout) (k : Str)
    → q.id ≡ r.id
    → steps edges r.id r.status q.status ≡ true
    → Held edges σ r rs
    → Moves edges k (σ k) (
        if str_eq q.id k
        then elim (status_at rs k) [ none ↦ none | some old ↦ some q.status ]
        else status_at rs k)
moved_at edges σ r q rs k same step (reached, held) = elim (Bool-cases (str_eq q.id k)) [
  | inl here ↦
      let r_is_k : r.id ≡ k = sym same ∙ str_eq→eq q.id k here in
      let at_k : status_at rs k ≡ some r.status =
        subst (λ z. status_at rs z ≡ some r.status) r_is_k held in
      rw (here, at_k)
        (move q.status (subst (Moves edges k (σ k)) at_k (reached k))
          (subst (λ z. steps edges z r.status q.status ≡ true) r_is_k step))
  | inr other ↦ rw other (reached k)
]
