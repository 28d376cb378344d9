-- ===== src/Device/Selector/Laws.antt =====
-- Matching against a plain description, copies of labels, and fingerprints.
use mathlib.Core.List.{Perm, Permᴰ, Nodup, Nodup-cons, mem-cons}
use mathlib.Core.List.Perm
use mathlib.Core.Logic.{∥∥₁_elim}
use mathlib.Core.Path.{fun_ext}
use mathlib.Core.Logic.Or
use edge_rollout_control_ser.Base.{
  ◌≡◌, ◌≢◌, ◌↔◌, refl, subst, ◌∙◌, true, List, [], ◌∷◌, map, Str, str_eq, str_eq→eq, str_ltb,
  str_ltb_total, str_eq_iff, if◌then◌else◌, All, sort_by, sort_by-perm, sort_by-Sorted,
  Sorted-eq_of_perm, IsWeakOrder, by_text-IsWeakOrder, arith,
}
use edge_rollout_control_ser.Device.{Labels, Term}
use edge_rollout_control_ser.Device.Selector.{
  SelectorExpression, label_at, set_label, match_terms, matches, sorted_label_keys,
  label_fingerprint,
}

match_terms_iff :
    (ts : List Term) (labels : Labels)
    → (match_terms ts labels ≡ true) ↔ All (λ (t : Term). label_at labels t.key ≡ t.value) ts
unfolding match_terms
match_terms_iff [] labels = (λ h. tt, λ h. refl)
match_terms_iff (t ∷ ts) labels =
    let at = str_eq_iff (label_at labels t.key) t.value in
    let rest = match_terms_iff ts labels in (λ h. (ground arith, ground arith), λ h. ground arith)

-- An expression matches exactly if it has a term and every term's key has the term's value.
pub matches_iff :
    (s : SelectorExpression) (labels : Labels)
    → (matches s labels ≡ true)
      ↔ ((s.terms ≢ []) × All (λ (t : Term). label_at labels t.key ≡ t.value) s.terms)
unfolding matches
matches_iff s labels =
    let rest = match_terms_iff s.terms labels in
    (λ h. (λ e. ground arith, ground arith), λ h. ground arith)

label_at-set_label :
    (m : Labels) (k j v : Str)
    → label_at (set_label m k v) j ≡ (if str_eq k j then v else label_at m j)
unfolding label_at set_label
label_at-set_label [] k j v = refl
label_at-set_label ((i, w) ∷ m) k j v =
    ground (arith, str_eq_iff k j, str_eq_iff i k, str_eq_iff i j, label_at-set_label m k j v)

abbrev keys : Labels → List Str
keys m = map (λ l. l.0) m

Str-set : IsSet Str
Str-set = hlevel

label_at_cons :
    (x : Str × Str) (m n : Labels) (k : Str)
    → label_at m k ≡ label_at n k
    → label_at (x ∷ m) k ≡ label_at (x ∷ n) k
unfolding label_at
label_at_cons x m n k e = ground arith

label_at_swap :
    (x y : Str × Str) (m : Labels) (k : Str)
    → x.0 ≢ y.0
    → label_at (x ∷ y ∷ m) k ≡ label_at (y ∷ x ∷ m) k
unfolding label_at
label_at_swap x y m k n = ground (arith, str_eq→eq x.0 k, str_eq→eq y.0 k)

label_at-permᴰ : (m n : Labels) (k : Str) → Nodup (keys m) → Permᴰ m n → label_at m k ≡ label_at n k
label_at-permᴰ _ _ k d Permᴰ.nil = refl
label_at-permᴰ _ _ k d (Permᴰ.cons {a = x} {b = y} {l₁ = m} {l₂ = n} a p) =
    subst (λ z. label_at (x ∷ m) k ≡ label_at (z ∷ n) k) a
      (label_at_cons x m n k (label_at-permᴰ m n k (Nodup-cons.0 d).1 p))
label_at-permᴰ _ _ k d (Permᴰ.swap {a = x} {b = y} {a' = v} {b' = w} {l = m} a b) =
    subst (λ z. label_at (x ∷ y ∷ m) k ≡ label_at (z ∷ w ∷ m) k) b
      (subst (λ z. label_at (x ∷ y ∷ m) k ≡ label_at (y ∷ z ∷ m) k) a
        (label_at_swap x y m k (λ e. (Nodup-cons.0 d).0 (mem-cons.1 (Or.inl e)))))
label_at-permᴰ m n k d (Permᴰ.trans {l₂ = o} p q) =
    label_at-permᴰ m o k d p
    ∙ label_at-permᴰ o n k (Perm.nodup (Perm.map (λ (l : Str × Str). l.0) ∣ p ∣₁) d) q

pub label_at-perm :
    (m n : Labels) (k : Str) → Nodup (keys m) → Perm m n → label_at m k ≡ label_at n k
label_at-perm m n k d p = ∥∥₁_elim p (Str-set _ _) (label_at-permᴰ m n k d)

str_weak : IsWeakOrder str_ltb
str_weak = by_text-IsWeakOrder (λ s. s)

sorted_label_keys-perm : (m n : Labels) → Perm m n → sorted_label_keys m ≡ sorted_label_keys n
unfolding sorted_label_keys
sorted_label_keys-perm m n p =
    Sorted-eq_of_perm str_ltb str_weak (sort_by str_ltb (keys m)) (sort_by str_ltb (keys n))
      (λ a b ma mb. str_ltb_total a b) (sort_by-Sorted str_ltb str_weak (keys m))
      (sort_by-Sorted str_ltb str_weak (keys n))
      (Perm.trans (sort_by-perm str_ltb (keys m)) (
        Perm.trans (Perm.map (λ (l : Str × Str). l.0) p)
          (Perm.symm (sort_by-perm str_ltb (keys n)))))

-- The fingerprint of a map of labels, whose keys differ, does not depend on the order in which the
-- map is iterated.
pub label_fingerprint-perm :
    (m n : Labels) → Nodup (keys m) → Perm m n → label_fingerprint m ≡ label_fingerprint n
unfolding label_fingerprint
label_fingerprint-perm m n d p =
    rw (sorted_label_keys-perm m n p, fun_ext λ k. label_at-perm m n k d p) refl
