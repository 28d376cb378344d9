-- ===== src/Device.antt =====
-- internal/domain/device/device.go: devices, groups and `key=value` selectors. A map of labels is
-- an association list with the order of its iteration; `none` is a nil map.
pub mod Health
pub mod Version
pub mod Selector
use edge_rollout_control_ser.Base.{
  ℕ, Bool, true, false, not, ◌||◌, Option, none, some, List, Str, is_empty, trim_space, split_first,
  ◌==◌, if◌then◌else◌, Result, ok, err, fail_if,
}
use edge_rollout_control_ser.Base.Time.{Time}

pub data Status : Type 0 where
  pending online offline retired : Status

abbrev pub status_tag : Status → ℕ
status_tag pending = 0
status_tag online = 1
status_tag offline = 2
status_tag retired = 3

abbrev pub status_eq : Status → Status → Bool
status_eq a b = status_tag a == status_tag b

abbrev pub Labels : Type 0
Labels = List (Str × Str)

pub record Device : Type 0 where
  pub id : Str
  pub name : Str
  pub hardware_model : Str
  pub software_version : Str
  pub labels : Option Labels
  pub status : Status
  pub current_configuration_id : Str
  pub last_heartbeat_at : Time
  pub created_at : Time
  pub updated_at : Time

pub record Group : Type 0 where
  pub id : Str
  pub name : Str
  pub selector : Str
  pub description : Str
  pub created_at : Time
  pub updated_at : Time

pub data Error : Type 0 where
  invalid : Error

-- A term `key=value` of a selector.
pub record Term : Type 0 where
  pub key : Str
  pub value : Str

unfoldable pub parse_selector : Str → Result Error Term
unfolding trim_space split_first
parse_selector s =
    let parts = split_first b'=' (trim_space s) in
    elim parts.1 [
      | none ↦ err invalid
      | some value ↦
          if is_empty (trim_space parts.0) || is_empty (trim_space value)
          then err invalid
          else ok (record { key = trim_space parts.0; value = trim_space value })
    ]

unfoldable pub validate : Device → Result Error (Unit {0})
unfolding trim_space
validate d =
    fail_if
      (is_empty (trim_space d.id)
        || is_empty (trim_space d.name)
        || is_empty (trim_space d.hardware_model))
      invalid

unfoldable pub heartbeat : Device → Time → Device
heartbeat d at =
    if status_eq d.status retired
    then d
    else record d { status = online; last_heartbeat_at = at; updated_at = at }

-- `wall` is what `time.Now()` returns.
unfoldable pub retire : Device → Time → Device
retire d wall = record d { status = retired; updated_at = wall }

unfoldable pub validate_group : Group → Result Error (Unit {0})
validate_group g = fail_if (is_empty g.id || is_empty g.name) invalid
