-- ===== src/Service/Pages/Orders.antt =====
-- The orders of the listing calls: by name, by name and then the newest version, and by time with the
-- newest first.
use edge_rollout_control_ser.Base.{
  ℕ, ◌≡◌, refl, Bool, false, str_eq, str_eq→eq, str_eq_refl, str_ltb, str_ltb_irrefl, str_ltb_total,
  ltb, Bool-cases, inl, inr, arith, IsWeakOrder, Before, lex, lex-IsWeakOrder, by_text-IsWeakOrder,
}
use edge_rollout_control_ser.Base.Int.{ℤ, ltb_ℤ, ◌≤ℤ◌}
use edge_rollout_control_ser.Configuration.{Configuration}
use edge_rollout_control_ser.Store.Listings.{version_less}

pub newest-IsWeakOrder : {A : Type 0} (key : A → ℕ) → IsWeakOrder (λ a b. ltb (key b) (key a))
newest-IsWeakOrder key = record {
  asym = λ a b h. ground arith;
  le_trans = λ a b c h k. ground arith;
}

highest-IsWeakOrder : {A : Type 0} (key : A → ℤ) → IsWeakOrder (λ a b. ltb_ℤ (key b) (key a))
highest-IsWeakOrder key = record {
  asym = λ a b h. ground arith;
  le_trans = λ a b c h k. ground arith;
}

IsWeakOrder-same :
    {A : Type 0} (p q : A → A → Bool) → ((a b : A) → p a b ≡ q a b) → IsWeakOrder q → IsWeakOrder p
IsWeakOrder-same p q same o = record {
  asym = λ a b h. rw (same b a) (o.asym a b (rw (same a b) at h));
  le_trans =
      λ a b c h k. rw (same c a) (o.le_trans a b c (rw (same b a) at h) (rw (same c b) at k));
}

-- A name that is the same, or first.
version_less-lex :
    (a b : Configuration)
    → version_less a b
      ≡ lex
          (λ (x : Configuration) (y : Configuration). str_ltb x.name y.name)
          (λ (x : Configuration) (y : Configuration). ltb_ℤ y.version x.version)
          a
          b
version_less-lex a b = elim (Bool-cases (str_eq a.name b.name)) [
  | inl same ↦ rw (same, str_eq→eq a.name b.name same, str_ltb_irrefl b.name) refl
  | inr apart ↦ elim (Bool-cases (str_ltb a.name b.name)) [
    | inl before ↦ rw (apart, before) refl
    | inr not_before ↦ elim (Bool-cases (str_ltb b.name a.name)) [
      | inl after ↦ rw (apart, not_before, after) refl
      | inr not_after ↦
          absurd (cc (apart, str_ltb_total a.name b.name not_before not_after, str_eq_refl b.name))
    ]
  ]
]

pub version_less-IsWeakOrder : IsWeakOrder version_less
version_less-IsWeakOrder = IsWeakOrder-same version_less _ version_less-lex (
    lex-IsWeakOrder _ _ (by_text-IsWeakOrder (λ (x : Configuration). x.name))
      (highest-IsWeakOrder (λ (x : Configuration). x.version)))

-- A configuration that stands before another.
abbrev pub IsByVersion : Configuration → Configuration → Type 0
IsByVersion a b = (str_ltb b.name a.name ≡ false) × (a.name ≡ b.name → b.version ≤ℤ a.version)

not_below : (a b : ℤ) → ltb_ℤ a b ≡ false → b ≤ℤ a
not_below a b h = ground arith

pub Before-version_less : (a b : Configuration) → Before version_less a b → IsByVersion a b
Before-version_less a b h = elim (Bool-cases (str_eq b.name a.name)) [
  | inl same ↦
      let versions = rw same at h in
      (
        rw (str_eq→eq b.name a.name same) (str_ltb_irrefl a.name),
        λ e. not_below a.version b.version versions,
      )
  | inr apart ↦ (rw apart at h, λ e. absurd (cc (apart, e, str_eq_refl a.name)))
]
