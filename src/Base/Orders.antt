-- ===== src/Base/Orders.antt =====
-- Orders for sorting, built from keys, and sorted permutations of a list.
use mathlib.Core.Path.{◌≡◌, refl, sym, ap, ap₂, subst, ◌∙◌}
use mathlib.Core.Logic.{inl, inr, ∥∥₁_elim}
use mathlib.Core.Logic.Or
use mathlib.Core.Bool.{Bool, true, false, not, ◌&&◌}
use mathlib.Core.HLevel.{hedberg}
use mathlib.Core.List.{List, [], ◌∷◌, Mem, mem-cons, not-mem-nil, Perm, Permᴰ}
use mathlib.Core.List.Perm
use native.Mathlib.Omega.{arith}
use native.Mathlib.Nat.{ℕ_set}
use Prim.Native.Nat.{ℕ, suc}
use edge_rollout_control_ser.Base.Tests.{ltb, if◌then◌else◌, Bool-cases}
use edge_rollout_control_ser.Base.Lists.{length, All, Sorted}
use edge_rollout_control_ser.Base.Text.{Str, str_ltb, str_ltb_irrefl, str_ltb_trans, str_ltb_total}
use edge_rollout_control_ser.Base.Sort.{IsWeakOrder, Before}

-- Two comparisons in turn: the second decides where the first does not.
abbrev pub lex {ℓ} : {A : Type ℓ} → (A → A → Bool) → (A → A → Bool) → A → A → Bool
lex f g a b = if f a b then true else if f b a then false else g a b

pub lex-IsWeakOrder {ℓ} :
    {A : Type ℓ} (f g : A → A → Bool) → IsWeakOrder f → IsWeakOrder g → IsWeakOrder (lex f g)
lex-IsWeakOrder f g p q = record {
  asym = λ a b h. ground (arith, p.asym a b, q.asym a b);
  le_trans = λ a b c h k. ground (
    arith,
    p.le_trans a b c,
    p.le_trans b c a,
    p.le_trans c a b,
    q.le_trans a b c,
    p.asym a b,
    p.asym b a,
    p.asym b c,
    p.asym c b,
    p.asym a c,
    p.asym c a,
  );
}

-- Comparing by a flag, by a number and by a text.
pub by_flag-IsWeakOrder {ℓ} :
    {A : Type ℓ} (on : Bool) (flag : A → Bool) → IsWeakOrder (λ a b. on && (flag a && not (flag b)))
by_flag-IsWeakOrder on flag = record {
  asym = λ a b h. ground arith;
  le_trans = λ a b c h k. ground arith;
}

pub by_number-IsWeakOrder {ℓ} :
    {A : Type ℓ} (key : A → ℕ) → IsWeakOrder (λ a b. ltb (key a) (key b))
by_number-IsWeakOrder key = record {
  asym = λ a b h. ground arith;
  le_trans = λ a b c h k. ground arith;
}

pub str_asym : (s t : Str) → str_ltb s t ≡ true → str_ltb t s ≡ false
str_asym s t h = elim (Bool-cases (str_ltb t s)) [
  | inl e ↦ absurd (cc (str_ltb_trans s t s h e, str_ltb_irrefl s))
  | inr e ↦ e
]

str_le_trans : (s t u : Str) → str_ltb t s ≡ false → str_ltb u t ≡ false → str_ltb u s ≡ false
str_le_trans s t u h k = elim (Bool-cases (str_ltb u s)) [
  | inl e ↦ elim (Bool-cases (str_ltb s t)) [
    | inl l ↦ absurd (cc (str_ltb_trans u s t e l, k))
    | inr l ↦ absurd (cc (str_ltb_total s t l h, e, k))
  ]
  | inr e ↦ e
]

pub by_text-IsWeakOrder {ℓ} :
    {A : Type ℓ} (key : A → Str) → IsWeakOrder (λ a b. str_ltb (key a) (key b))
by_text-IsWeakOrder key = record {
  asym = λ a b h. str_asym (key a) (key b) h;
  le_trans = λ a b c h k. str_le_trans (key a) (key b) (key c) h k;
}

pub bool_prop : (b c : Bool) (p q : b ≡ c) → p ≡ q
bool_prop b c = hedberg (hlevel) b c

module _ {ℓ} {A : Type ℓ} where
  pub All-Mem :
      (P : A → Type 0)
      → ((a : A) (p q : P a) → p ≡ q)
      → (xs : List A) (a : A) → All P xs
      → Mem a xs
      → P a
  All-Mem P prop [] a p m = absurd (not-mem-nil m)
  All-Mem P prop (x ∷ xs) a p m =
      Or.elim (prop a) (mem-cons.0 m) (λ e. subst P (sym e) p.0) (λ r. All-Mem P prop xs a p.1 r)

  pub Mem-All : (P : A → Type 0) (xs : List A) → ((a : A) → Mem a xs → P a) → All P xs
  Mem-All P [] h = tt
  Mem-All P (x ∷ xs) h =
      (h x (mem-cons.1 (Or.inl refl)), Mem-All P xs (λ a m. h a (mem-cons.1 (Or.inr m))))

  pub All-perm :
      (P : A → Type 0)
      → ((a : A) (p q : P a) → p ≡ q)
      → (xs ys : List A) → Perm xs ys
      → All P xs
      → All P ys
  All-perm P prop xs ys p h = Mem-All P ys (λ a m. All-Mem P prop xs a h ((Perm.mem_iff p).1 m))

module _ {ℓ} {A : Type ℓ} where
  length-permᴰ : {xs ys : List A} → Permᴰ xs ys → length xs ≡ length ys
  length-permᴰ Permᴰ.nil = refl
  length-permᴰ (Permᴰ.cons a q) = ap suc (length-permᴰ q)
  length-permᴰ (Permᴰ.swap a b) = refl
  length-permᴰ (Permᴰ.trans q r) = length-permᴰ q ∙ length-permᴰ r

  pub length-perm : {xs ys : List A} → Perm xs ys → length xs ≡ length ys
  length-perm p = ∥∥₁_elim p (ℕ_set _ _) length-permᴰ

module _ {ℓ} {A : Type ℓ} (less : A → A → Bool) (o : IsWeakOrder less) where
  irrefl : (a : A) → less a a ≡ false
  irrefl a = elim (Bool-cases (less a a)) [ inl e ↦ o.asym a a e | inr e ↦ e ]

  head-Before :
      (a b : A) (ys : List A) → Sorted (Before less) (b ∷ ys) → Mem a (b ∷ ys) → less a b ≡ false
  head-Before a b ys s m =
      Or.elim (bool_prop _ _) (mem-cons.0 m) (λ e. subst (λ z. less z b ≡ false) (sym e) (irrefl b))
        (λ r. All-Mem (Before less b) (λ c. bool_prop _ _) ys a s.0 r)

  -- Two sorted lists of the same elements are equal, where elements that neither precede the other
  -- are one.
  pub Sorted-eq_of_perm :
      (xs ys : List A)
      → ((a b : A) → Mem a xs → Mem b xs → less a b ≡ false → less b a ≡ false → a ≡ b)
      → Sorted (Before less) xs
      → Sorted (Before less) ys
      → Perm xs ys
      → xs ≡ ys
  Sorted-eq_of_perm [] ys anti sx sy p = Perm.nil-eq p
  Sorted-eq_of_perm (x ∷ xs) [] anti sx sy p = Perm.eq-nil p
  Sorted-eq_of_perm (x ∷ xs) (y ∷ ys) anti sx sy p =
      let x_in = mem-cons.1 (Or.inl refl) in
      let heads : x ≡ y =
        anti x y x_in ((Perm.mem_iff p).1 (mem-cons.1 (Or.inl refl)))
          (head-Before x y ys sy ((Perm.mem_iff p).0 x_in))
          (head-Before y x xs sx ((Perm.mem_iff p).1 (mem-cons.1 (Or.inl refl)))) in
      let tails = Perm.cons_inv (Perm.trans p (Perm.symm (Perm.cons' heads Perm.rfl))) in
      ap₂ ◌∷◌ heads (
        Sorted-eq_of_perm xs ys
          (λ a b ma mb. anti a b (mem-cons.1 (Or.inr ma)) (mem-cons.1 (Or.inr mb))) sx.1 sy.1 tails)
