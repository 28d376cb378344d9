-- ===== src/Configuration.antt =====
-- internal/domain/configuration/configuration.go and the check of models of content.go.
use edge_rollout_control_ser.Base.{
  ℕ, Bool, true, false, not, ◌||◌, List, [], ◌∷◌, Str, bytes, is_empty, trim_space, str_eq, ◌==◌,
  if◌then◌else◌, Result, fail_if,
}
use edge_rollout_control_ser.Base.Int.{ℤ, pos, ltb_ℤ}
use edge_rollout_control_ser.Base.Time.{Time}

pub data Status : Type 0 where
  draft published deprecated : Status

abbrev pub status_tag : Status → ℕ
status_tag draft = 0
status_tag published = 1
status_tag deprecated = 2

abbrev pub status_eq : Status → Status → Bool
status_eq a b = status_tag a == status_tag b

-- The format of a command is any string: `other` is one that is no constant.
pub data Format : Type 0 where
  yaml json : Format
  other : Str → Format

unfoldable pub valid_format : Format → Bool
valid_format yaml = true
valid_format json = true
valid_format (other s) = false

pub data Error : Type 0 where
  invalid : Error

unfoldable pub validate_content : Format → Str → Result Error (Unit {0})
unfolding trim_space valid_format
validate_content f s = fail_if (is_empty (trim_space s) || not (valid_format f)) invalid

pub record Configuration : Type 0 where
  pub id : Str
  pub name : Str
  pub content : Str
  pub content_sha256 : Str
  pub change_summary : Str
  pub created_by : Str
  pub format : Format
  pub version : ℤ
  pub compatible_models : List Str
  pub variables : List (Str × Str)
  pub status : Status
  pub created_at : Time
  pub updated_at : Time

unfoldable pub validate : Configuration → Result Error (Unit {0})
unfolding trim_space
validate c =
    fail_if
      (is_empty c.id
        || is_empty c.name
        || ltb_ℤ c.version (pos 1)
        || is_empty (trim_space c.content))
      invalid

unfoldable pub allows : Str → List Str → Bool
unfolding str_eq
allows model [] = false
allows model (value ∷ allowed) =
    let rest = allows model allowed in
    if str_eq value model || str_eq value (bytes "*") then true else rest

unfoldable pub compatible : Str → List Str → Bool
unfolding allows
compatible model [] = true
compatible model (value ∷ allowed) = allows model (value ∷ allowed)
