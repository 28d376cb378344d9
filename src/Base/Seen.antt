-- ===== src/Base/Seen.antt =====
-- The maps `seen map[string]struct{}` by which loops find repeated keys, as lists of keys, and
-- what a loop that never found one says of its list.
use mathlib.Core.Path.{◌≡◌, refl, sym, subst}
use mathlib.Core.Logic.{inl, inr}
use mathlib.Core.Logic.Or
use mathlib.Core.Bool.{Bool, true, false, ◌||◌}
use mathlib.Core.List.{List, [], ◌∷◌, Mem, mem-cons, Nodup, Nodup-cons, Nodup-nil, not-mem-nil}
use mathlib.Core.HLevel.{hedberg}
use native.Mathlib.Omega.{arith}
use edge_rollout_control_ser.Base.Tests.{Bool-cases}
use edge_rollout_control_ser.Base.Text.{Str, str_eq, str_eq_refl, str_eq→eq}

-- `_, ok := seen[key]`
unfoldable pub contains : List Str → Str → Bool
contains [] key = false
contains (k ∷ seen) key = str_eq k key || contains seen key

pub contains→Mem : (seen : List Str) (key : Str) → contains seen key ≡ true → Mem key seen
unfolding contains
contains→Mem [] key h = cc
contains→Mem (k ∷ seen) key h = elim (Bool-cases (str_eq k key)) [
  | inl e ↦ mem-cons.1 (Or.inl (sym (str_eq→eq k key e)))
  | inr n ↦ mem-cons.1 (Or.inr (contains→Mem seen key (rw n at h)))
]

true≢false_prop : (b : Bool) → (p q : b ≡ true) → p ≡ q
true≢false_prop b = hedberg (hlevel) b true

pub Mem→contains : (seen : List Str) (key : Str) → Mem key seen → contains seen key ≡ true
unfolding contains
Mem→contains [] key m = absurd (not-mem-nil m)
Mem→contains (k ∷ seen) key m =
    Or.elim (true≢false_prop _) (mem-cons.0 m) (λ e. rw e (rw (str_eq_refl k) refl))
      (λ r. ground (arith, Mem→contains seen key r))

-- Each key is new when the loop reaches it.
abbrev pub Fresh : List Str → List Str → Type 0
Fresh seen [] = Unit
Fresh seen (k ∷ keys) = (contains seen k ≡ false) × Fresh (k ∷ seen) keys

Fresh→apart : (seen keys : List Str) (a : Str) → Fresh seen keys → Mem a keys → Mem a seen → ⊥
Fresh→apart seen [] a f m s = not-mem-nil m
Fresh→apart seen (k ∷ keys) a f m s =
    Or.elim (λ x. absurd x) (mem-cons.0 m)
      (λ e. cc (f.0, Mem→contains seen k (subst (λ z. Mem z seen) e s)))
      (λ r. Fresh→apart (k ∷ seen) keys a f.1 r (mem-cons.1 (Or.inr s)))

pub Fresh→Nodup : (seen keys : List Str) → Fresh seen keys → Nodup keys
Fresh→Nodup seen [] f = Nodup-nil
Fresh→Nodup seen (k ∷ keys) f = Nodup-cons.1 (
  (λ m. Fresh→apart (k ∷ seen) keys k f.1 m (mem-cons.1 (Or.inl refl))),
  Fresh→Nodup (k ∷ seen) keys f.1,
)

pub Nodup→Fresh :
    (seen keys : List Str)
    → Nodup keys
    → ((a : Str) → Mem a keys → Mem a seen → ⊥)
    → Fresh seen keys
Nodup→Fresh seen [] n apart = tt
Nodup→Fresh seen (k ∷ keys) n apart =
    let (new, rest) = Nodup-cons.0 n in
    (
      elim (Bool-cases (contains seen k)) [
        | inl old ↦ absurd (apart k (mem-cons.1 (Or.inl refl)) (contains→Mem seen k old))
        | inr h ↦ h
      ],
      Nodup→Fresh (k ∷ seen) keys rest (λ a m s.
          Or.elim (λ x. absurd x) (mem-cons.0 s) (λ e. new (subst (λ z. Mem z keys) e m))
            (λ r. apart a (mem-cons.1 (Or.inr m)) r)),
    )
