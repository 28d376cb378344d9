-- ===== src/Device/Version.antt =====
-- internal/domain/device/version.go: semantic versions, their order and constraints on them.
pub mod Keys
pub mod Order
use edge_rollout_control_ser.Base.{
  ℕ, zero, suc, ◌+◌, ◌*◌, ◌-◌, ◌/◌, ◌%◌, ◌<◌, Bool, true, false, not, ◌||◌, ◌&&◌, Option, none,
  some, List, [], ◌∷◌, ◌++◌, Str, bytes, is_empty, trim_space, split, split_first, str_eq, str_ltb,
  ◌==◌, ltb, leb, if◌then◌else◌, length, Result, ok, err, ◌>>=◌, ◌>>◌, fail_if,
}
use edge_rollout_control_ser.Base.Int.{ℤ, pos, negsuc, ltb_ℤ, neg_part, pos_part}

pub record SemanticVersion : Type 0 where
  pub major : ℤ
  pub minor : ℤ
  pub patch : ℤ
  pub prerelease : Str
  pub build : Str

-- Errors, one for each message; a number is the index that the message names.
pub data VersionError : Type 0 where
  version_required empty_build empty_prerelease too_many_components : VersionError
  empty_component leading_zero bad_component : ℕ → VersionError
  bad_minimum bad_maximum : VersionError → VersionError
  minimum_exceeds_maximum : VersionError

abbrev pub is_digit : ℕ → Bool
is_digit c = leb b'0' c && leb c b'9'

-- The digits of `strconv.Atoi`: `none` is a byte that is no digit.
unfoldable pub digits_from : ℕ → Str → Option ℕ
digits_from acc [] = some acc
digits_from acc (c ∷ s) =
    let rest = digits_from (acc * 10 + (c - b'0')) s in if is_digit c then rest else none

abbrev pub digits : Str → Option ℕ
digits [] = none
digits (c ∷ s) = digits_from 0 (c ∷ s)

-- The range check of an int64, whose negative side is one longer.
abbrev pub in_range : Bool → Option ℕ → Option ℤ
in_range negative none = none
in_range true (some n) =
    if leb n 9223372036854775808 then some (elim n [ zero ↦ pos 0 | suc m ↦ negsuc m ]) else none
in_range false (some n) = if ltb n 9223372036854775808 then some (pos n) else none

-- `strconv.Atoi`: an optional sign and decimal digits, in the range of an int64.
unfoldable pub atoi : Str → Option ℤ
unfolding digits_from
atoi [] = none
atoi (c ∷ s) =
    if c == b'-'
    then in_range true (digits s)
    else if c == b'+'
    then in_range false (digits s)
    else in_range false (digits (c ∷ s))

unfoldable pub parse_component : ℕ → Str → Result VersionError ℤ
unfolding atoi
parse_component index [] = err (empty_component (suc index))
parse_component index (c ∷ s) =
    if c == b'0' && not (is_empty s) then err (leading_zero (suc index)) else elim (atoi (c ∷ s)) [
      | none ↦ err (bad_component (suc index))
      | some value ↦ if ltb_ℤ value (pos 0) then err (bad_component (suc index)) else ok value
    ]

-- The loop over the parts, with the values so far filled up by zeros.
unfoldable pub parse_components : ℕ → List Str → Result VersionError (List ℤ)
unfolding parse_component
parse_components index [] = ok []
parse_components index (part ∷ parts) =
    let rest = parse_components (suc index) parts in
    parse_component index part >>= λ value. rest >>= λ values. ok (value ∷ values)

abbrev pub value_at : List ℤ → ℕ → ℤ
value_at [] i = pos 0
value_at (v ∷ vs) zero = v
value_at (v ∷ vs) (suc i) = value_at vs i

-- A suffix behind a separator: absent, or not empty.
abbrev pub suffix : VersionError → Option Str → Result VersionError Str
suffix e none = ok []
suffix e (some s) = if is_empty s then err e else ok s

unfoldable pub parse_semantic_version : Str → Result VersionError SemanticVersion
unfolding trim_space split_first split parse_components
parse_semantic_version raw = do
  let text = trim_space raw
  fail_if (is_empty text) version_required
  let core_and_build = split_first b'+' text
  build ← suffix empty_build core_and_build.1
  let core_and_prerelease = split_first b'-' core_and_build.0
  prerelease ← suffix empty_prerelease core_and_prerelease.1
  let parts = split b'.' core_and_prerelease.0
  fail_if (ltb (length parts) 1 || ltb 3 (length parts)) too_many_components
  values ← parse_components 0 parts
  ok (record {
    major = value_at values 0;
    minor = value_at values 1;
    patch = value_at values 2;
    prerelease = prerelease;
    build = build;
  })

-- `%d` of a number, with as many rounds as the number is large.
unfoldable pub decimal_from : ℕ → ℕ → Str → Str
decimal_from zero n rest = rest
decimal_from (suc fuel) n rest =
    let more = decimal_from fuel (n / 10) ((b'0' + n % 10) ∷ rest) in
    if ltb n 10 then (b'0' + n) ∷ rest else more

abbrev pub decimal : ℤ → Str
decimal (pos n) = decimal_from (suc n) n []
decimal (negsuc n) = b'-' ∷ decimal_from (suc (suc n)) (suc n) []

unfoldable pub version_string : SemanticVersion → Str
unfolding decimal_from
version_string v =
    decimal v.major
    ++ bytes "."
    ++ decimal v.minor
    ++ bytes "."
    ++ decimal v.patch
    ++ (if is_empty v.prerelease then [] else bytes "-" ++ v.prerelease)
    ++ (if is_empty v.build then [] else bytes "+" ++ v.build)

-- The results -1, 0 and 1 of a comparison.
pub data Sign : Type 0 where
  less same greater : Sign

unfoldable pub compare_integer : ℤ → ℤ → Sign
compare_integer left right =
    if ltb_ℤ left right then less else if ltb_ℤ right left then greater else same

-- The outcome of one pair of identifiers; `same` goes on to the next pair.
unfoldable pub compare_identifier : Str → Str → Sign
unfolding atoi compare_integer
compare_identifier left right = elim (atoi left) [
  | some l ↦ elim (atoi right) [ some r ↦ compare_integer l r | none ↦ less ]
  | none ↦ elim (atoi right) [
    | some r ↦ greater
    | none ↦ if str_ltb left right then less else if str_ltb right left then greater else same
  ]
]

abbrev pub then_sign : Sign → Sign → Sign
then_sign less s = less
then_sign same s = s
then_sign greater s = greater

-- The loop over the identifiers of both, up to the longer.
unfoldable pub compare_identifiers : List Str → List Str → Sign
unfolding compare_identifier
compare_identifiers [] [] = same
compare_identifiers [] (r ∷ rs) = less
compare_identifiers (l ∷ ls) [] = greater
compare_identifiers (l ∷ ls) (r ∷ rs) =
    then_sign (compare_identifier l r) (compare_identifiers ls rs)

unfoldable pub compare_prerelease : Str → Str → Sign
unfolding compare_identifiers split str_eq
compare_prerelease left right =
    if str_eq left right
    then same
    else if is_empty left
    then greater
    else if is_empty right
    then less
    else compare_identifiers (split b'.' left) (split b'.' right)

abbrev pub differs : ℤ → ℤ → Bool
differs a b = ltb_ℤ a b || ltb_ℤ b a

unfoldable pub compare_version : SemanticVersion → SemanticVersion → Sign
unfolding compare_integer compare_prerelease
compare_version v other =
    if differs v.major other.major
    then compare_integer v.major other.major
    else if differs v.minor other.minor
    then compare_integer v.minor other.minor
    else if differs v.patch other.patch
    then compare_integer v.patch other.patch
    else compare_prerelease v.prerelease other.prerelease

pub record VersionConstraint : Type 0 where
  pub minimum : Option SemanticVersion
  pub maximum : Option SemanticVersion

abbrev pub is_less : Sign → Bool
is_less less = true
is_less _ = false

abbrev pub is_greater : Sign → Bool
is_greater greater = true
is_greater _ = false

abbrev pub below : Option SemanticVersion → SemanticVersion → Bool
below none v = false
below (some bound) v = is_less (compare_version v bound)

abbrev pub above : Option SemanticVersion → SemanticVersion → Bool
above none v = false
above (some bound) v = is_greater (compare_version v bound)

unfoldable pub match_constraint : VersionConstraint → SemanticVersion → Bool
unfolding compare_version
match_constraint c v =
    if below c.minimum v then false else if above c.maximum v then false else true

abbrev pub relabel :
    {A : Type 0} → (VersionError → VersionError) → Result VersionError A → Result VersionError A
relabel f (ok a) = ok a
relabel f (err e) = err (f e)

abbrev pub parse_bound :
    (VersionError → VersionError) → Str → Result VersionError (Option SemanticVersion)
parse_bound f raw =
    if is_empty raw then ok none else (relabel f (parse_semantic_version raw) >>= λ v. ok (some v))

abbrev pub exceeds : Option SemanticVersion → Option SemanticVersion → Bool
exceeds (some low) high = elim high [ some h ↦ is_greater (compare_version low h) | none ↦ false ]
exceeds none high = false

unfoldable pub parse_version_constraint : Str → Str → Result VersionError VersionConstraint
unfolding parse_semantic_version compare_version
parse_version_constraint minimum maximum = do
  low ← parse_bound bad_minimum minimum
  high ← parse_bound bad_maximum maximum
  fail_if (exceeds low high) minimum_exceeds_maximum
  ok (record { minimum = low; maximum = high })

unfoldable pub compatible_software_version : Str → VersionConstraint → Result VersionError Bool
unfolding parse_semantic_version match_constraint
compatible_software_version raw constraint = do
  version ← parse_semantic_version raw
  ok (match_constraint constraint version)
