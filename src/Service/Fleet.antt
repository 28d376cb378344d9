-- ===== src/Service/Fleet.antt =====
-- internal/application/service.go: devices and device groups.
use edge_rollout_control_ser.Base.{
  Bool, ◌||◌, Option, none, some, List, [], ◌∷◌, Str, bytes, is_empty, trim_space, any_of,
  if◌then◌else◌, ok, err,
}
use edge_rollout_control_ser.Base.Time.{Time, is_zero}
use edge_rollout_control_ser.Base.Floats.{Floats}
use edge_rollout_control_ser.Device
use edge_rollout_control_ser.Device.{Device, Group, Labels}
use edge_rollout_control_ser.Audit.{text}
use edge_rollout_control_ser.Store.{validation}
use edge_rollout_control_ser.Store.Rows
use edge_rollout_control_ser.Store.Rows.{get_device}
use edge_rollout_control_ser.Store.Creation
use edge_rollout_control_ser.Store.Creation.{get_group}
use edge_rollout_control_ser.Store.Listings
use edge_rollout_control_ser.Service.{
  Env, Run, of_device, pure, fail, refuse, ◌>>=◌, ◌>>◌, now, new_id, query, execute, audit, emit,
}

pub record CreateDeviceCommand : Type 0 where
  pub name : Str
  pub hardware_model : Str
  pub software_version : Str
  pub labels : Option Labels

-- A nil pointer, or a nil map, is `none`.
pub record UpdateDeviceCommand : Type 0 where
  pub name : Option Str
  pub software_version : Option Str
  pub labels : Option Labels

pub record HeartbeatCommand : Type 0 where
  pub software_version : Str
  pub current_configuration_id : Str
  pub timestamp : Time

pub record CreateGroupCommand : Type 0 where
  pub name : Str
  pub selector : Str
  pub description : Str

-- `cloneLabels`: a copy of a nil map is an empty map.
unfoldable pub clone_labels : Option Labels → Labels
clone_labels none = []
clone_labels (some labels) = labels

abbrev pub blank_entry : Str × Str → Bool
blank_entry (key, value) = is_empty (trim_space key) || is_empty (trim_space value)

module _ (f : Floats) (e : Env) where
  abbrev pub new_device : CreateDeviceCommand → Str → Time → Device
  new_device c id at = record {
    id = id;
    name = trim_space c.name;
    hardware_model = trim_space c.hardware_model;
    software_version = trim_space c.software_version;
    labels = some (clone_labels c.labels);
    status = Device.Status.offline;
    current_configuration_id = [];
    last_heartbeat_at = 0;
    created_at = at;
    updated_at = at;
  }

  unfoldable pub create_device : CreateDeviceCommand → Str → Run f Device
  unfolding clone_labels trim_space
  create_device c actor = do
    refuse (is_empty (trim_space c.name)) (validation (bytes "name"))
    refuse (is_empty (trim_space c.hardware_model)) (validation (bytes "hardware_model"))
    refuse (is_empty (trim_space c.software_version)) (validation (bytes "software_version"))
    refuse (any_of blank_entry (clone_labels c.labels)) (validation (bytes "labels"))
    at ← now f e
    id ← new_id f e
    let entity = new_device c id at
    execute f e λ s. Creation.create_device f s entity
    audit f e actor (bytes "device.created") (bytes "device") entity.id (
        (bytes "name", text entity.name)
        ∷ (bytes "hardware_model", text entity.hardware_model)
        ∷ [])
    emit f e (bytes "device.created") entity.id (of_device entity)
    pure entity

  -- `if command.Name != nil { … }`: the trimmed text, or the old one.
  abbrev pub changed_text : Option Str → Str → Str → Run f Str
  changed_text none field old = pure old
  changed_text (some value) field old = do
    refuse (is_empty (trim_space value)) (validation field)
    pure (trim_space value)

  abbrev pub changed_labels : Option Labels → Option Labels → Option Labels
  changed_labels none old = old
  changed_labels (some labels) old = some labels

  unfoldable pub update_device : Str → UpdateDeviceCommand → Str → Run f Device
  unfolding trim_space
  update_device id c actor = do
    found ← query f e λ s. get_device f s id
    name ← changed_text c.name (bytes "name") found.name
    version ← changed_text c.software_version (bytes "software_version") found.software_version
    at ← now f e
    let entity = record found {
      name = name;
      software_version = version;
      labels = changed_labels c.labels found.labels;
      updated_at = at;
    }
    execute f e λ s. Rows.update_device f s entity
    audit f e actor (bytes "device.updated") (bytes "device") entity.id
        ((bytes "name", text entity.name) ∷ [])
    pure entity

  abbrev pub or_text : Str → Str → Str
  or_text value old = if is_empty value then old else value

  unfoldable pub heartbeat : Str → HeartbeatCommand → Run f Device
  heartbeat id c = do
    found ← query f e λ s. get_device f s id
    seen_at ← (if is_zero c.timestamp then now f e else pure c.timestamp)
    at ← now f e
    let entity = record found {
      software_version = or_text c.software_version found.software_version;
      current_configuration_id = or_text c.current_configuration_id found.current_configuration_id;
      status = Device.Status.online;
      last_heartbeat_at = seen_at;
      updated_at = at;
    }
    execute f e λ s. Rows.update_device f s entity
    pure entity

  unfoldable pub create_group : CreateGroupCommand → Str → Run f Group
  unfolding trim_space
  create_group c actor = do
    let name = trim_space c.name
    let selector = trim_space c.selector
    refuse (is_empty name || is_empty selector) (validation [])
    elim (Device.parse_selector selector) [
      | err x ↦ fail (validation (bytes "selector"))
      | ok term ↦ do
        at ← now f e
        id ← new_id f e
        let entity : Group = record {
          id = id;
          name = name;
          selector = selector;
          description = c.description;
          created_at = at;
          updated_at = at;
        }
        execute f e λ s. Creation.create_group f s entity
        audit f e actor (bytes "device_group.created") (bytes "device_group") entity.id
            ((bytes "selector", text entity.selector) ∷ [])
        pure entity
    ]

  -- The group, and its devices by a second call.
  unfoldable pub resolve_group : Str → Run f (Group × List Device)
  resolve_group id = do
    group ← query f e λ s. get_group f s id
    items ← query f e λ s. Listings.resolve_group f e.like s id
    pure (group, items)
