-- ===== src/Base/Text.antt =====
-- Go strings, as their bytes: equality, the byte order of `<`, and constants.
use Prim.Native.Nat.{ℕ}
use Prim.Native.Char.{code}
use Prim.Native.String.{String}
use mathlib.Core.Path.{◌≡◌, refl}
use mathlib.Core.Logic.{◌↔◌}
use mathlib.Core.Bool.{Bool, true, false, ◌&&◌}
use mathlib.Core.List.{List, [], ◌∷◌}
use native.Mathlib.Omega.{arith}
use edge_rollout_control_ser.Base.Tests.{ltb, ◌==◌, if◌then◌else◌}

abbrev pub Str : Type 0
Str = List ℕ

-- The bytes of a constant (all constants of the program are ASCII).
abbrev pub bytes : String → Str
bytes String.[] = []
bytes (String.◌∷◌ c s) = code c ∷ bytes s

unfoldable pub str_eq : Str → Str → Bool
str_eq [] [] = true
str_eq (x ∷ xs) (y ∷ ys) = x == y && str_eq xs ys
str_eq _ _ = false

-- The comparison `<` of strings: bytewise, a proper prefix first.
unfoldable pub str_ltb : Str → Str → Bool
str_ltb [] [] = false
str_ltb [] (y ∷ ys) = true
str_ltb (x ∷ xs) [] = false
str_ltb (x ∷ xs) (y ∷ ys) =
    let rest = str_ltb xs ys in if ltb x y then true else if ltb y x then false else rest

abbrev pub is_empty : Str → Bool
is_empty [] = true
is_empty (x ∷ xs) = false

pub str_eq_refl : (s : Str) → str_eq s s ≡ true
unfolding str_eq
str_eq_refl [] = refl
str_eq_refl (x ∷ xs) = ground (arith, str_eq_refl xs)

pub str_eq→eq : (s t : Str) → str_eq s t ≡ true → s ≡ t
unfolding str_eq
str_eq→eq [] [] h = refl
str_eq→eq [] (y ∷ ys) h = cc
str_eq→eq (x ∷ xs) [] h = cc
str_eq→eq (x ∷ xs) (y ∷ ys) h = ground (arith, str_eq→eq xs ys)

pub str_eq_iff : (s t : Str) → (str_eq s t ≡ true) ↔ (s ≡ t)
str_eq_iff s t = (str_eq→eq s t, λ e. rw e (str_eq_refl t))

-- `<` is a strict total order.
pub str_ltb_irrefl : (s : Str) → str_ltb s s ≡ false
unfolding str_ltb
str_ltb_irrefl [] = refl
str_ltb_irrefl (x ∷ xs) = ground (arith, str_ltb_irrefl xs)

pub str_ltb_trans : (s t u : Str) → str_ltb s t ≡ true → str_ltb t u ≡ true → str_ltb s u ≡ true
unfolding str_ltb
str_ltb_trans [] [] u h k = cc
str_ltb_trans [] (y ∷ ys) [] h k = cc
str_ltb_trans [] (y ∷ ys) (z ∷ zs) h k = refl
str_ltb_trans (x ∷ xs) [] u h k = cc
str_ltb_trans (x ∷ xs) (y ∷ ys) [] h k = cc
str_ltb_trans (x ∷ xs) (y ∷ ys) (z ∷ zs) h k = ground (arith, str_ltb_trans xs ys zs)

pub str_ltb_total : (s t : Str) → str_ltb s t ≡ false → str_ltb t s ≡ false → s ≡ t
unfolding str_ltb
str_ltb_total [] [] h k = refl
str_ltb_total [] (y ∷ ys) h k = cc
str_ltb_total (x ∷ xs) [] h k = cc
str_ltb_total (x ∷ xs) (y ∷ ys) h k = ground (arith, str_ltb_total xs ys)
