-- ===== src/Base/Keys.antt =====
-- Lists of things with a key that is a text: kept apart by their keys, and sorted by them.
use Prim.Native.Nat.{ℕ, zero, suc}
use mathlib.Core.Path.{◌≡◌, refl}
use mathlib.Core.Logic.{◌≢◌, inl, inr}
use mathlib.Core.Logic.Or
use mathlib.Core.Bool.{Bool, true}
use mathlib.Core.List.{List, [], ◌∷◌, Mem, mem-cons}
use edge_rollout_control_ser.Base.Tests.{Bool-cases}
use edge_rollout_control_ser.Base.Lists.{All, All-map, Sorted, select, take, drop}
use edge_rollout_control_ser.Base.Sort.{sort_by, insert_by, All-insert_by, All-sort_by}
use edge_rollout_control_ser.Base.Text.{Str, str_ltb, str_ltb_trans, str_ltb_total}

module _ {A : Type 0} where
  pub All-select :
      (P : A → Type 0) (p : A → Bool) (xs : List A)
      → All P xs
      → All (λ x. P x × (p x ≡ true)) (select p xs)
  All-select P p [] h = tt
  All-select P p (x ∷ xs) h = elim (Bool-cases (p x)) [
    | inl e ↦ rw e ((h.0, e), All-select P p xs h.1)
    | inr e ↦ rw e (All-select P p xs h.1)
  ]

  pub All-take : (P : A → Type 0) (n : ℕ) (xs : List A) → All P xs → All P (take n xs)
  All-take P zero xs h = tt
  All-take P (suc n) [] h = tt
  All-take P (suc n) (x ∷ xs) h = (h.0, All-take P n xs h.1)

  pub All-drop : (P : A → Type 0) (n : ℕ) (xs : List A) → All P xs → All P (drop n xs)
  All-drop P zero xs h = h
  All-drop P (suc n) [] h = tt
  All-drop P (suc n) (x ∷ xs) h = All-drop P n xs h.1

  pub All-mem : (xs : List A) → All (λ x. Mem x xs) xs
  All-mem [] = tt
  All-mem (x ∷ xs) =
      (mem-cons.1 (Or.inl refl), All-map (λ y m. mem-cons.1 (Or.inr m)) xs (All-mem xs))

  pub Sorted-select :
      (R : A → A → Type 0) (p : A → Bool) (xs : List A) → Sorted R xs → Sorted R (select p xs)
  Sorted-select R p [] s = tt
  Sorted-select R p (x ∷ xs) s = elim (Bool-cases (p x)) [
    | inl e ↦
        rw e
          (All-map (λ y h. h.0) (select p xs) (All-select (R x) p xs s.0), Sorted-select R p xs s.1)
    | inr e ↦ rw e (Sorted-select R p xs s.1)
  ]

module _ {A : Type 0} (key : A → Str) where
  abbrev pub Apart : A → A → Type 0
  Apart a b = key a ≢ key b

  abbrev pub Less : A → A → Type 0
  Less a b = str_ltb (key a) (key b) ≡ true

  insert_by_key :
      (x : A) (ys : List A)
      → All (Apart x) ys
      → Sorted Less ys
      → Sorted Less (insert_by (λ a b. str_ltb (key a) (key b)) x ys)
  unfolding insert_by
  insert_by_key x [] apart s = (tt, tt)
  insert_by_key x (y ∷ ys) apart s = elim (Bool-cases (str_ltb (key y) (key x))) [
    | inl h ↦ rw h (
      All-insert_by (λ a b. str_ltb (key a) (key b)) (Less y) x ys h s.0,
      insert_by_key x ys apart.1 s.1,
    )
    | inr h ↦
        let before : Less x y = elim (Bool-cases (str_ltb (key x) (key y))) [
          | inl k ↦ k
          | inr k ↦ absurd (apart.0 (str_ltb_total (key x) (key y) k h))
        ] in
        rw h ((before, All-map (λ z k. str_ltb_trans (key x) (key y) (key z) before k) ys s.0), s)
  ]

  -- Sorting things with different keys puts each strictly before the next.
  pub sort_by_key :
      (xs : List A) → Sorted Apart xs → Sorted Less (sort_by (λ a b. str_ltb (key a) (key b)) xs)
  unfolding sort_by
  sort_by_key [] s = tt
  sort_by_key (x ∷ xs) s =
      insert_by_key x (sort_by (λ a b. str_ltb (key a) (key b)) xs)
        (All-sort_by (λ a b. str_ltb (key a) (key b)) (Apart x) xs s.0) (sort_by_key xs s.1)
