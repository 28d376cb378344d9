-- ===== src/Service/Reporting/Normal.antt =====
-- The lists of ids that `NormalizeIDs` returns.
use edge_rollout_control_ser.Base.{
  ℕ, ◌≤◌, ◌≡◌, refl, false, true, ◌||◌, List, [], ◌∷◌, map, Str, is_empty, trim_space, str_eq,
  str_eq→eq, str_eq_refl, contains, ltb, length, All, Fresh, Fresh→Nodup, Result, ok, err,
  Bool-cases, inl, inr, arith,
}
use mathlib.Core.List.{Nodup}
use edge_rollout_control_ser.Service.Reporting.{TextError, normalize_from, normalize_ids}

abbrev pub IsId : Str → Type 0
IsId v = (is_empty v ≡ false) × (length v ≤ 128)

-- What the loop does with the values that are left, given those that were seen.
abbrev Outcome : List Str → List Str → Result TextError (List Str) → Type 0
Outcome seen values (ok ids) =
    Fresh seen ids
    × All IsId ids
    × ((a : Str) → (contains ids a || contains seen a) ≡ (contains values a || contains seen a))
Outcome seen values (err x) = (v : Str) × (contains values v ≡ true) × (IsId v → ⊥)

skipped :
    (seen values : List Str) (v : Str) (r : Result TextError (List Str))
    → contains seen v ≡ true
    → Outcome seen values r
    → Outcome seen (v ∷ values) r
unfolding contains
skipped seen values v (err x) old (w, m, bad) = (w, ground arith, bad)
skipped seen values v (ok ids) old (fresh, all, same) = (
  fresh,
  all,
  λ a. elim (Bool-cases (str_eq v a)) [
    | inl e ↦
        let was : contains seen a ≡ true = rw (← str_eq→eq v a e) old in ground (arith, same a)
    | inr n ↦ ground (arith, same a)
  ],
)

taken :
    (seen values : List Str) (v : Str) (r : Result TextError (List Str))
    → contains seen v ≡ false
    → IsId v
    → Outcome (v ∷ seen) values r
    → Outcome seen (v ∷ values) (elim r [ err x ↦ err x | ok rest ↦ ok (v ∷ rest) ])
unfolding contains
taken seen values v (err x) new good (w, m, bad) = (w, ground arith, bad)
taken seen values v (ok ids) new good (fresh, all, same) =
    ((new, fresh), (good, all), λ a. ground (arith, same a))

head_is_there : (v : Str) (values : List Str) → contains (v ∷ values) v ≡ true
unfolding contains
head_is_there v values = rw (str_eq_refl v) refl

is_long : (n : ℕ) → ltb 128 n ≡ true → n ≤ 128 → ⊥
is_long n h k = ground arith

is_short : (n : ℕ) → ltb 128 n ≡ false → n ≤ 128
is_short n h = ground arith

normalize_from-Outcome :
    (seen values : List Str) → Outcome seen (map trim_space values) (normalize_from seen values)
unfolding normalize_from
normalize_from-Outcome seen [] = (tt, tt, λ a. refl)
normalize_from-Outcome seen (v ∷ values) =
    let skip = normalize_from-Outcome seen values in
    let take = normalize_from-Outcome (trim_space v ∷ seen) values in
    elim (Bool-cases (is_empty (trim_space v))) [
      | inl blank ↦ rw blank (trim_space v, head_is_there (trim_space v) _, λ id. cc (id.0, blank))
      | inr filled ↦ elim (Bool-cases (ltb 128 (length (trim_space v)))) [
        | inl long ↦
            rw (filled, long)
              (trim_space v, head_is_there (trim_space v) _, λ id. is_long _ long id.1)
        | inr short ↦ elim (Bool-cases (contains seen (trim_space v))) [
          | inl old ↦ rw (filled, short, old) (skipped seen _ (trim_space v) _ old skip)
          | inr new ↦
              rw (filled, short, new)
                (taken seen _ (trim_space v) _ new (filled, is_short _ short) take)
        ]
      ]
    ]

-- The ids of a list of values, or a value that is no id.
abbrev pub IdsOf : List Str → Result TextError (List Str) → Type 0
IdsOf values (ok ids) = Nodup ids × All IsId ids × ((a : Str) → contains ids a ≡ contains values a)
IdsOf values (err x) = (v : Str) × (contains values v ≡ true) × (IsId v → ⊥)

-- `NormalizeIDs` either returns the values without the space around them, each once and none of them
-- empty or longer than 128 bytes, or fails, and then there is a value that is, without the space
-- around it, empty or longer than 128 bytes.
pub normalize_ids-IdsOf : (values : List Str) → IdsOf (map trim_space values) (normalize_ids values)
unfolding normalize_ids contains
normalize_ids-IdsOf values = outcome (normalize_from [] values) (normalize_from-Outcome [] values)
  where
    outcome :
        (r : Result TextError (List Str))
        → Outcome [] (map trim_space values) r
        → IdsOf (map trim_space values) r
    outcome (ok ids) (fresh, all, same) =
        (Fresh→Nodup [] ids fresh, all, λ a. ground (arith, same a))
    outcome (err x) h = h
