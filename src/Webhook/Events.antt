-- ===== src/Webhook/Events.antt =====
-- Which lists of event types a subscription may have.
use mathlib.Core.List.{Nodup, not-mem-nil}
use edge_rollout_control_ser.Base.{
  ◌≡◌, ◌↔◌, refl, Bool, true, false, not, ◌||◌, List, [], ◌∷◌, Str, bytes, str_eq, contains, Fresh,
  Fresh→Nodup, Nodup→Fresh, select, All, arith, ok, err, Bool-cases, inl, inr, Result,
  if◌then◌else◌, sym, ◌∙◌, ap,
}
use edge_rollout_control_ser.Webhook.{
  supported_events, check_events, EventError, unsupported_event, duplicate_event,
  validate_event_types,
}

abbrev pub is_star : Str → Bool
is_star value = str_eq value (bytes "*")

abbrev pub Known : Str → Type 0
Known value = (is_star value || contains supported_events value) ≡ true

abbrev pub named : List Str → List Str
named = select (λ v. not (is_star v))

-- The tests of one round, whatever their results are.
abbrev round :
    Bool
    → Bool
    → Bool
    → Str
    → Result EventError Unit
    → Result EventError Unit
    → Result EventError Unit
round star known old v skip rest =
    if star
    then skip
    else if not known
    then err (unsupported_event v)
    else if old
    then err (duplicate_event v)
    else rest

round_star :
    (known old : Bool) (v : Str) (skip rest : Result EventError Unit)
    → round true known old v skip rest ≡ skip
round_star known old v skip rest = refl

round_accepts :
    (known old : Bool) (v : Str) (skip rest : Result EventError Unit)
    → round false known old v skip rest ≡ ok tt
    → (known ≡ true) × (old ≡ false) × (rest ≡ ok tt)
round_accepts known old v skip rest h = (ground arith, ground arith, ground arith)

accepts-round :
    (known old : Bool) (v : Str) (skip rest : Result EventError Unit)
    → known ≡ true
    → old ≡ false
    → rest ≡ ok tt
    → round false known old v skip rest ≡ ok tt
accepts-round known old v skip rest k o r = ground arith

or_right : (a b : Bool) → b ≡ true → (a || b) ≡ true
or_right a b h = ground arith

or_not : (a b : Bool) → (a || b) ≡ true → a ≡ false → b ≡ true
or_not a b h k = ground arith

check_events-cons :
    (seen : List Str) (v : Str) (values : List Str)
    → check_events seen (v ∷ values)
      ≡ round
          (is_star v)
          (contains supported_events v)
          (contains seen v)
          v
          (check_events seen values)
          (check_events (v ∷ seen) values)
unfolding check_events
check_events-cons seen v values = refl

check_events_accepts :
    (seen values : List Str)
    → check_events seen values ≡ ok tt
    → All Known values × Fresh seen (named values)
unfolding check_events
check_events_accepts seen [] h = (tt, tt)
check_events_accepts seen (v ∷ values) h =
    let step = sym (check_events-cons seen v values) ∙ h in
    elim (Bool-cases (is_star v)) [
      | inl star ↦
          let rest = check_events_accepts seen values (rw star at step) in
          ((ap (λ b. b || contains supported_events v) star, rest.0), rw star rest.1)
      | inr other ↦
          let (known, new, more) =
            round_accepts _ _ v (check_events seen values) _ (rw other at step) in
          let rest = check_events_accepts (v ∷ seen) values more in
          ((or_right _ _ known, rest.0), rw other (new, rest.1))
    ]

accepts-check_events :
    (seen values : List Str)
    → All Known values
    → Fresh seen (named values)
    → check_events seen values ≡ ok tt
unfolding check_events
accepts-check_events seen [] k f = refl
accepts-check_events seen (v ∷ values) k f =
    check_events-cons seen v values ∙ elim (Bool-cases (is_star v)) [
      | inl star ↦ rw star (accepts-check_events seen values k.1 (rw star at f))
      | inr other ↦
          let g : (contains seen v ≡ false) × Fresh (v ∷ seen) (named values) = rw other at f in
          rw other (
            accepts-round _ _ v (check_events seen values) _ (or_not _ _ k.0 other) g.0
              (accepts-check_events (v ∷ seen) values k.1 g.1))
    ]

-- `ValidateEventTypes` accepts a list exactly if each element is the wildcard or a supported event
-- and no event occurs twice; the wildcard may.
pub validate_event_types_iff :
    (values : List Str)
    → (validate_event_types values ≡ ok tt) ↔ (All Known values × Nodup (named values))
unfolding validate_event_types contains
validate_event_types_iff values = (
  (λ h. let (k, f) = check_events_accepts [] values h in (k, Fresh→Nodup [] (named values) f)),
  λ h.
      accepts-check_events [] values h.0
        (Nodup→Fresh [] (named values) h.1 (λ a m n. not-mem-nil n)),
)
