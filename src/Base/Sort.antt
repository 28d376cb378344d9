-- ===== src/Base/Sort.antt =====
-- `sort.SliceStable` and `sort.Slice` over a comparison, as the stable insertion sort.
use mathlib.Core.Path.{◌≡◌, refl, ap, ◌∙◌}
use Prim.Native.Nat.{suc}
use native.Mathlib.Omega.{arith}
use mathlib.Core.Bool.{Bool, true, false}
use mathlib.Core.List.{List, [], ◌∷◌, Perm}
use mathlib.Core.List.Perm
use edge_rollout_control_ser.Base.Tests.{if◌then◌else◌, Bool-cases}
use mathlib.Core.Logic.{inl, inr}
use edge_rollout_control_ser.Base.Lists.{length, All, All-map, Sorted}

-- A comparison that sorting may be given: `less a b` is "a comes strictly before b".
pub record IsWeakOrder {ℓ} {A : Type ℓ} (less : A → A → Bool) : Type ℓ where
  pub asym : (a b : A) → less a b ≡ true → less b a ≡ false
  pub le_trans : (a b c : A) → less b a ≡ false → less c b ≡ false → less c a ≡ false

module _ {ℓ} {A : Type ℓ} (less : A → A → Bool) where
  unfoldable pub insert_by : A → List A → List A
  insert_by x [] = x ∷ []
  insert_by x (y ∷ ys) = let rest = insert_by x ys in if less y x then y ∷ rest else x ∷ y ∷ ys

  unfoldable pub sort_by : List A → List A
  unfolding insert_by
  sort_by [] = []
  sort_by (x ∷ xs) = insert_by x (sort_by xs)

  insert_by-perm : (x : A) (ys : List A) → Perm (insert_by x ys) (x ∷ ys)
  unfolding insert_by
  insert_by-perm x [] = Perm.refl (x ∷ [])
  insert_by-perm x (y ∷ ys) = elim (Bool-cases (less y x)) [
    | inl h ↦ rw h (Perm.trans (Perm.cons y (insert_by-perm x ys)) (Perm.swap x y ys))
    | inr h ↦ rw h (Perm.refl (x ∷ y ∷ ys))
  ]

  pub sort_by-perm : (xs : List A) → Perm (sort_by xs) xs
  unfolding sort_by
  sort_by-perm [] = Perm.refl []
  sort_by-perm (x ∷ xs) = Perm.trans (insert_by-perm x (sort_by xs)) (Perm.cons x (sort_by-perm xs))

  length-insert_by : (x : A) (ys : List A) → length (insert_by x ys) ≡ suc (length ys)
  unfolding insert_by
  length-insert_by x [] = refl
  length-insert_by x (y ∷ ys) = ground (arith, length-insert_by x ys)

  pub length-sort_by : (xs : List A) → length (sort_by xs) ≡ length xs
  unfolding sort_by
  length-sort_by [] = refl
  length-sort_by (x ∷ xs) = length-insert_by x (sort_by xs) ∙ ap suc (length-sort_by xs)

  -- `a` may stand before `b`.
  abbrev pub Before : A → A → Type 0
  Before a b = less b a ≡ false

  pub All-insert_by :
      (P : A → Type 0) (x : A) (ys : List A) → P x → All P ys → All P (insert_by x ys)
  unfolding insert_by
  All-insert_by P x [] p q = (p, tt)
  All-insert_by P x (y ∷ ys) p q = elim (Bool-cases (less y x)) [
    | inl h ↦ rw h (q.0, All-insert_by P x ys p q.1)
    | inr h ↦ rw h (p, q)
  ]

  pub All-sort_by : (P : A → Type 0) (xs : List A) → All P xs → All P (sort_by xs)
  unfolding sort_by
  All-sort_by P [] p = tt
  All-sort_by P (x ∷ xs) p = All-insert_by P x (sort_by xs) p.0 (All-sort_by P xs p.1)

  module _ (o : IsWeakOrder less) where
    insert_by-Sorted : (x : A) (ys : List A) → Sorted Before ys → Sorted Before (insert_by x ys)
    unfolding insert_by
    insert_by-Sorted x [] s = (tt, tt)
    insert_by-Sorted x (y ∷ ys) s = elim (Bool-cases (less y x)) [
      | inl h ↦ rw h (All-insert_by (Before y) x ys (o.asym y x h) s.0, insert_by-Sorted x ys s.1)
      | inr h ↦ rw h ((h, All-map (λ z k. o.le_trans x y z h k) ys s.0), s)
    ]

    pub sort_by-Sorted : (xs : List A) → Sorted Before (sort_by xs)
    unfolding sort_by
    sort_by-Sorted [] = tt
    sort_by-Sorted (x ∷ xs) = insert_by-Sorted x (sort_by xs) (sort_by-Sorted xs)
