-- ===== src/Rollout/Machine/History.antt =====
-- `Append` and `Validate` of a transition history, and `ApplyTransition` beside them.
use edge_rollout_control_ser.Base.{
  ℕ, suc, ◌≡◌, ◌⊎◌, inl, inr, refl, sym, ◌∙◌, true, false, Option, none, some, List, [], ◌∷◌, ◌++◌,
  Str, is_empty, last?, arith, ok, err, Option-cases,
}
use edge_rollout_control_ser.Base.Time.{Time}
use edge_rollout_control_ser.Rollout.{Status, Rollout}
use edge_rollout_control_ser.Rollout.Machine.{
  Transition, TransitionHistory, before_previous, append, current, check_step, validate_from,
  validate, can_transition, apply_transition,
}

-- The transition before the one that is added.
abbrev last_or : Option Transition → List Transition → Option Transition
last_or p [] = p
last_or p (t ∷ ts) = last_or (some t) ts

last_or-last? : (t : Transition) (ts : List Transition) → last_or (some t) ts ≡ last? (t ∷ ts)
last_or-last? t [] = refl
last_or-last? t (u ∷ ts) = last_or-last? u ts

last_or-none : (ts : List Transition) → last_or none ts ≡ last? ts
last_or-none [] = refl
last_or-none (t ∷ ts) = last_or-last? t ts

validate_from-append :
    (i : ℕ) (p : Option Transition) (ts : List Transition) (t : Transition)
    → validate_from i p ts ≡ ok tt
    → ((n : ℕ) → check_step n (last_or p ts) t ≡ ok tt)
    → validate_from i p (ts ++ t ∷ []) ≡ ok tt
unfolding validate_from
validate_from-append i p [] t h step = ground (arith, step i)
validate_from-append i p (u ∷ ts) t h step = ground (
  arith,
  λ (g : validate_from (suc i) (some u) ts ≡ ok tt).
      validate_from-append (suc i) (some u) ts t g step,
)

last?-append : (ts : List Transition) (t : Transition) → last? (ts ++ t ∷ []) ≡ some t
last?-append [] t = refl
last?-append (u ∷ []) t = refl
last?-append (u ∷ v ∷ ts) t = last?-append (v ∷ ts) t

-- The tests of `Append` are those of `Validate` at the new transition.
check_step_last :
    (h : TransitionHistory) (t : Transition) (n : ℕ)
    → can_transition t.from t.to ≡ true
    → (append h t).1 ≡ ok tt
    → check_step n (last? h.transitions) t ≡ ok tt
unfolding append
check_step_last h t n legal done = ground (arith, Option-cases (last? h.transitions))

append_ok :
    (h : TransitionHistory) (t : Transition)
    → (append h t).1 ≡ ok tt
    → (append h t).0 ≡ record h { transitions = h.transitions ++ t ∷ [] }
unfolding append
append_ok h t done = ground (arith, Option-cases (last? h.transitions))

append_id :
    (h : TransitionHistory) (t : Transition)
    → (append h t).1 ≡ ok tt
    → is_empty h.rollout_id ≡ false
unfolding append
append_id h t done = ground arith

-- If a history is valid and a legal transition is appended without an error, the new history is
-- valid too and stands at the transition's target.
pub append-validate :
    (h : TransitionHistory) (t : Transition)
    → validate h ≡ ok tt
    → can_transition t.from t.to ≡ true
    → (append h t).1 ≡ ok tt
    → (validate (append h t).0 ≡ ok tt) × (current (append h t).0 ≡ t.to)
unfolding validate current
append-validate h t valid legal done = rw (append_ok h t done) (
  ground (
    arith,
    append_id h t done,
    validate_from-append 0 none h.transitions t (ground arith)
        (λ n. rw last_or-none (check_step_last h t n legal done)),
  ),
  ground (arith, last?-append h.transitions t),
)

-- A history records a rollout: it is valid, and its current status is the rollout's.
pub record Follows (r : Rollout) (h : TransitionHistory) : Type 0 where
  pub valid : validate h ≡ ok tt
  pub at_status : current h ≡ r.status

applied :
    (r r' : Rollout) (to : Status) (actor reason : Str) (at wall : Time) (t : Transition)
    → apply_transition (some r) to actor reason at wall ≡ (some r', ok t)
    → (can_transition t.from t.to ≡ true) × (t.from ≡ r.status) × (t.to ≡ r'.status)
unfolding apply_transition
applied r r' to actor reason at wall t h = ground arith

append_follows :
    (h : TransitionHistory) (t : Transition)
    → is_empty h.rollout_id ≡ false
    → current h ≡ t.from
    → ((append h t).1 ≡ ok tt) ⊎ ((append h t).1 ≡ err before_previous)
unfolding append current
append_follows h t id at = ground (arith, Option-cases (last? h.transitions))

valid_id : (h : TransitionHistory) → validate h ≡ ok tt → is_empty h.rollout_id ≡ false
unfolding validate
valid_id h v = ground arith

-- When a history follows a rollout and `ApplyTransition` accepts a request, appending the returned
-- transition either gives a history that follows the new rollout, or is refused because the
-- transition is older than the last one; no other error is possible.
pub apply_transition-append :
    (r r' : Rollout) (h : TransitionHistory) (to : Status) (actor reason : Str) (at wall : Time)
    (t : Transition)
    → Follows r h
    → apply_transition (some r) to actor reason at wall ≡ (some r', ok t)
    → (((append h t).1 ≡ ok tt) × Follows r' (append h t).0)
      ⊎ ((append h t).1 ≡ err before_previous)
apply_transition-append r r' h to actor reason at wall t f e =
    let a = applied r r' to actor reason at wall t e in
    elim (append_follows h t (valid_id h f.valid) (f.at_status ∙ sym a.1)) [
      | inl done ↦
          let n = append-validate h t f.valid a.0 done in
          inl (done, record { valid = n.0; at_status = n.1 ∙ a.2 })
      | inr older ↦ inr older
    ]
