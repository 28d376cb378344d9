-- ===== src/Device/Version/Keys.antt =====
-- Orders built from keys, and the order of one identifier of a pre-release.
use mathlib.Core.Path.{fun_ext}
use edge_rollout_control_ser.Base.{
  ◌≡◌, refl, subst, if◌then◌else◌, Option, none, some, [], Str, str_ltb, str_ltb_irrefl,
  str_ltb_trans, str_ltb_total, str_asym, arith,
}
use edge_rollout_control_ser.Base.Int.{ℤ}
use edge_rollout_control_ser.Device.Version.{
  Sign, less, same, greater, compare_integer, atoi, compare_identifier, then_sign,
}

abbrev pub flip : Sign → Sign
flip less = greater
flip same = same
flip greater = less

-- A comparison into three signs that orders its type, up to elements that compare as the same.
pub record IsOrder {ℓ} {A : Type ℓ} (cmp : A → A → Sign) : Type ℓ where
  pub flips : (a b : A) → cmp b a ≡ flip (cmp a b)
  pub same_left : (a b c : A) → cmp a b ≡ same → cmp a c ≡ cmp b c
  pub less_trans : (a b c : A) → cmp a b ≡ less → cmp b c ≡ less → cmp a c ≡ less

pub compare_integer-IsOrder : IsOrder compare_integer
unfolding compare_integer
compare_integer-IsOrder = record {
  flips = λ a b. ground arith;
  same_left = λ a b c h. ground arith;
  less_trans = λ a b c h k. ground arith;
}

pub then-IsOrder {ℓ} :
    {A : Type ℓ} (f g : A → A → Sign)
    → IsOrder f
    → IsOrder g
    → IsOrder (λ a b. then_sign (f a b) (g a b))
then-IsOrder f g p q = record {
  flips = λ a b. ground (arith, p.flips a b, q.flips a b);
  same_left = λ a b c h. ground (arith, p.same_left a b c, q.same_left a b c);
  less_trans = λ a b c h k. ground (
    arith,
    p.same_left a b c,
    p.less_trans a b c,
    q.less_trans a b c,
    p.flips a b,
    p.flips b c,
    p.flips a c,
    p.same_left c b a,
    q.same_left a b c,
  );
}

pub on-IsOrder {ℓ κ} :
    {A : Type ℓ} {B : Type κ} (key : A → B) (f : B → B → Sign)
    → IsOrder f
    → IsOrder (λ a b. f (key a) (key b))
on-IsOrder key f p = record {
  flips = λ a b. p.flips (key a) (key b);
  same_left = λ a b c. p.same_left (key a) (key b) (key c);
  less_trans = λ a b c. p.less_trans (key a) (key b) (key c);
}

-- Texts by bytes.
abbrev compare_text : Str → Str → Sign
compare_text a b = if str_ltb a b then less else if str_ltb b a then greater else same

tie : (a b : Str) → compare_text a b ≡ same → a ≡ b
tie a b h = ground (arith, str_ltb_total a b)

pub compare_text-IsOrder : IsOrder compare_text
compare_text-IsOrder = record {
  flips = λ a b. ground (arith, str_asym a b);
  same_left = λ a b c h. subst (λ x. compare_text a c ≡ compare_text x c) (tie a b h) refl;
  less_trans = λ a b c h k. ground (arith, str_ltb_trans a b c);
}

-- An identifier is a number or a text, and numbers come first.
abbrev compare_key : Option ℤ → Option ℤ → Sign
compare_key (some a) (some b) = compare_integer a b
compare_key (some a) none = less
compare_key none (some b) = greater
compare_key none none = same

compare_key-IsOrder : IsOrder compare_key
compare_key-IsOrder = record { flips = flips; same_left = same_left; less_trans = less_trans }
  where
    open compare_integer-IsOrder use {flips as i_flips, same_left as i_same, less_trans as i_less}

    flips : (a b : Option ℤ) → compare_key b a ≡ flip (compare_key a b)
    flips (some a) (some b) = i_flips a b
    flips (some a) none = refl
    flips none (some b) = refl
    flips none none = refl

    same_left : (a b c : Option ℤ) → compare_key a b ≡ same → compare_key a c ≡ compare_key b c
    same_left (some a) (some b) (some c) h = i_same a b c h
    same_left (some a) (some b) none h = refl
    same_left (some a) none c h = cc
    same_left none (some b) c h = cc
    same_left none none c h = refl

    less_trans :
        (a b c : Option ℤ)
        → compare_key a b ≡ less
        → compare_key b c ≡ less
        → compare_key a c ≡ less
    less_trans (some a) (some b) (some c) h k = i_less a b c h k
    less_trans (some a) (some b) none h k = refl
    less_trans (some a) none c h k =
        elim c as (λ x. compare_key none x ≡ less → compare_key (some a) x ≡ less) [
          | some d ↦ λ e. cc
          | none ↦ λ e. cc
        ]
          k
    less_trans none (some b) c h k = cc
    less_trans none none c h k = cc

-- The text of an identifier that is no number.
abbrev text_of : Option ℤ → Str → Str
text_of (some a) s = []
text_of none s = s

compare_identifier-keys :
    (l r : Str)
    → then_sign
        (compare_key (atoi l) (atoi r))
        (compare_text (text_of (atoi l) l) (text_of (atoi r) r))
      ≡ compare_identifier l r
unfolding compare_identifier
compare_identifier-keys l r = ground (arith, str_ltb_irrefl [])

pub compare_identifier-IsOrder : IsOrder compare_identifier
compare_identifier-IsOrder = subst IsOrder (fun_ext λ l. fun_ext λ r. compare_identifier-keys l r) (
    then-IsOrder _ _ (on-IsOrder atoi compare_key compare_key-IsOrder)
      (on-IsOrder (λ s. text_of (atoi s) s) compare_text compare_text-IsOrder))
