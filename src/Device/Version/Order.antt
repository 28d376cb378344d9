-- ===== src/Device/Version/Order.antt =====
-- The comparison of versions, and constraints over it.
use mathlib.Core.Path.{fun_ext}
use edge_rollout_control_ser.Base.{
  ◌≡◌, ◌≢◌, refl, subst, Bool, true, false, Option, none, some, List, [], ◌∷◌, Str, is_empty, split,
  str_eq, str_eq→eq, str_eq_refl, arith, Bool-cases, inl, inr,
}
use edge_rollout_control_ser.Device.Version.{
  Sign, less, same, greater, SemanticVersion, VersionConstraint, compare_integer,
  compare_identifiers, then_sign, compare_prerelease, compare_version, match_constraint, below,
  above,
}
use edge_rollout_control_ser.Device.Version.Keys.{
  flip, IsOrder, compare_integer-IsOrder, then-IsOrder, on-IsOrder, compare_identifier-IsOrder,
}

compare_identifiers-IsOrder : IsOrder compare_identifiers
unfolding compare_identifiers
compare_identifiers-IsOrder = record {
  flips = flips;
  same_left = same_left;
  less_trans = less_trans;
}
  where
    open compare_identifier-IsOrder use {
      flips as i_flips, same_left as i_same, less_trans as i_less,
    }

    flips : (a b : List Str) → compare_identifiers b a ≡ flip (compare_identifiers a b)
    flips [] [] = refl
    flips [] (r ∷ rs) = refl
    flips (l ∷ ls) [] = refl
    flips (l ∷ ls) (r ∷ rs) = ground (arith, i_flips l r, flips ls rs)

    same_left :
        (a b c : List Str)
        → compare_identifiers a b ≡ same
        → compare_identifiers a c ≡ compare_identifiers b c
    same_left [] [] c h = refl
    same_left [] (r ∷ rs) c h = cc
    same_left (l ∷ ls) [] c h = cc
    same_left (l ∷ ls) (r ∷ rs) [] h = refl
    same_left (l ∷ ls) (r ∷ rs) (k ∷ ks) h = ground (arith, i_same l r k, same_left ls rs ks)

    less_trans :
        (a b c : List Str)
        → compare_identifiers a b ≡ less
        → compare_identifiers b c ≡ less
        → compare_identifiers a c ≡ less
    less_trans [] [] c h k = cc
    less_trans [] (r ∷ rs) [] h k = cc
    less_trans [] (r ∷ rs) (k ∷ ks) h e = refl
    less_trans (l ∷ ls) [] c h k = cc
    less_trans (l ∷ ls) (r ∷ rs) [] h k = cc
    less_trans (l ∷ ls) (r ∷ rs) (k ∷ ks) h e = ground (
      arith,
      i_same l r k,
      i_less l r k,
      less_trans ls rs ks,
      i_flips l r,
      i_flips r k,
      i_flips l k,
      i_same k r l,
    )

-- A version with a prerelease precedes the one without.
abbrev compare_empty : Bool → Bool → Sign
compare_empty true true = same
compare_empty true false = greater
compare_empty false true = less
compare_empty false false = same

compare_empty-IsOrder : IsOrder compare_empty
compare_empty-IsOrder = record {
  flips = λ a b. ground arith;
  same_left = λ a b c h. ground arith;
  less_trans = λ a b c h k. ground arith;
}

itself {ℓ} : {A : Type ℓ} (f : A → A → Sign) → IsOrder f → (a : A) → f a a ≡ same
itself f p a = ground (arith, p.flips a a)

compare_prerelease-keys :
    (l r : Str)
    → then_sign
        (compare_empty (is_empty l) (is_empty r))
        (compare_identifiers (split b'.' l) (split b'.' r))
      ≡ compare_prerelease l r
unfolding compare_prerelease
compare_prerelease-keys l r = elim (Bool-cases (str_eq l r)) [
  | inl e ↦
      subst
        (λ x.
          then_sign (compare_empty (is_empty l) (is_empty x))
            (compare_identifiers (split b'.' l) (split b'.' x))
          ≡ compare_prerelease l x)
        (str_eq→eq l r e)
        (ground (
          arith,
          str_eq_refl l,
          itself compare_identifiers compare_identifiers-IsOrder (split b'.' l),
        ))
  | inr n ↦ both l r n
]
  where
    both :
        (l r : Str)
        → str_eq l r ≡ false
        → then_sign
            (compare_empty (is_empty l) (is_empty r))
            (compare_identifiers (split b'.' l) (split b'.' r))
          ≡ compare_prerelease l r
    both [] [] n = absurd (cc (n, str_eq_refl []))
    both [] (y ∷ r) n = ground arith
    both (x ∷ l) [] n = ground arith
    both (x ∷ l) (y ∷ r) n = ground arith

compare_prerelease-IsOrder : IsOrder compare_prerelease
compare_prerelease-IsOrder = subst IsOrder (fun_ext λ l. fun_ext λ r. compare_prerelease-keys l r) (
    then-IsOrder _ _ (on-IsOrder is_empty compare_empty compare_empty-IsOrder)
      (on-IsOrder (split b'.') compare_identifiers compare_identifiers-IsOrder))

compare_version-keys :
    (v w : SemanticVersion)
    → then_sign (compare_integer v.major w.major) (
        then_sign (compare_integer v.minor w.minor) (
          then_sign
            (compare_integer v.patch w.patch)
            (compare_prerelease v.prerelease w.prerelease)))
      ≡ compare_version v w
unfolding compare_version compare_integer
compare_version-keys v w = ground arith

-- `Compare` orders versions: swapping the arguments flips the result, versions that compare as the
-- same are interchangeable in every comparison, and "less" is transitive.
pub compare_version-IsOrder : IsOrder compare_version
compare_version-IsOrder = subst IsOrder (fun_ext λ v. fun_ext λ w. compare_version-keys v w) (
    then-IsOrder _ _ (on-IsOrder (λ v. v.major) compare_integer compare_integer-IsOrder) (
      then-IsOrder _ _ (on-IsOrder (λ v. v.minor) compare_integer compare_integer-IsOrder) (
        then-IsOrder _ _ (on-IsOrder (λ v. v.patch) compare_integer compare_integer-IsOrder)
          (on-IsOrder (λ v. v.prerelease) compare_prerelease compare_prerelease-IsOrder))))

module _ {ℓ} {A : Type ℓ} (cmp : A → A → Sign) (o : IsOrder cmp) where
  -- What lies above something that is not below a bound is not below it either.
  not_less_above : (u v b : A) → cmp u b ≢ less → cmp u v ≢ greater → cmp v b ≢ less
  not_less_above u v b h k e = ground (arith, o.same_left u v b, o.less_trans u v b)

  not_greater_below : (v w b : A) → cmp w b ≢ greater → cmp v w ≢ greater → cmp v b ≢ greater
  not_greater_below v w b h k e =
      ground (arith, o.same_left v w b, o.less_trans b v w, o.flips v b, o.flips w b, o.flips b w)

below_mono :
    (lo : Option SemanticVersion) (u v : SemanticVersion)
    → below lo u ≡ false
    → compare_version u v ≢ greater
    → below lo v ≡ false
below_mono none u v h k = refl
below_mono (some b) u v h k =
    let n : compare_version u b ≢ less = λ e. cc in
    let m = not_less_above compare_version compare_version-IsOrder u v b n k in ground arith

above_mono :
    (hi : Option SemanticVersion) (v w : SemanticVersion)
    → above hi w ≡ false
    → compare_version v w ≢ greater
    → above hi v ≡ false
above_mono none v w h k = refl
above_mono (some b) v w h k =
    let n : compare_version w b ≢ greater = λ e. cc in
    let m = not_greater_below compare_version compare_version-IsOrder v w b n k in ground arith

-- A constraint accepts every version between two versions that it accepts.
pub match_constraint_between :
    (c : VersionConstraint) (u v w : SemanticVersion)
    → match_constraint c u ≡ true
    → match_constraint c w ≡ true
    → compare_version u v ≢ greater
    → compare_version v w ≢ greater
    → match_constraint c v ≡ true
unfolding match_constraint
match_constraint_between c u v w mu mw low high =
    let lo : below c.minimum v ≡ false = below_mono c.minimum u v (ground arith) low in
    let hi : above c.maximum v ≡ false = above_mono c.maximum v w (ground arith) high in
    rw (lo, hi) refl
