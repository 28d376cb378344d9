-- ===== src/Service/Catalog.antt =====
-- internal/application/service.go: configurations, rules and webhook subscriptions.
use edge_rollout_control_ser.Base.{
  Bool, true, not, ◌||◌, Option, none, some, List, [], ◌∷◌, Str, bytes, is_empty, trim_space, find?,
  contains, sort_by, insert_by, str_ltb, if◌then◌else◌, Result, ok, err,
}
use edge_rollout_control_ser.Base.Int.{ℤ, pos, ◌+ℤ◌, int64}
use edge_rollout_control_ser.Base.Time.{Time}
use edge_rollout_control_ser.Base.Floats.{Floats}
use edge_rollout_control_ser.Device.{Labels}
use edge_rollout_control_ser.Configuration
use edge_rollout_control_ser.Configuration.{Configuration, Format, status_eq}
use edge_rollout_control_ser.Rule.{Rule, out_of_unit}
use edge_rollout_control_ser.Webhook
use edge_rollout_control_ser.Webhook.{Subscription}
use edge_rollout_control_ser.Audit.{text, number}
use edge_rollout_control_ser.Store.{Error, invalid_state, validation}
use edge_rollout_control_ser.Store.Rows.{get_configuration}
use edge_rollout_control_ser.Store.Creation
use edge_rollout_control_ser.Store.Creation.{update_configuration_status}
use edge_rollout_control_ser.Store.Listings.{list_configurations}
use edge_rollout_control_ser.Service.Fleet.{clone_labels}
use edge_rollout_control_ser.Service.{
  Env, Run, of_configuration, pure, fail, refuse, attempt, ◌>>=◌, ◌>>◌, now, new_id, query, execute,
  fallback, audit, emit,
}

-- The loop of `uniqueStrings`.
unfoldable pub unique_from : List Str → List Str → List Str
unfolding contains trim_space
unique_from seen [] = []
unique_from seen (v ∷ values) =
    let value = trim_space v in
    let skipped = unique_from seen values in
    let taken = unique_from (value ∷ seen) values in
    if is_empty value || contains seen value then skipped else value ∷ taken

unfoldable pub unique_strings : List Str → List Str
unfolding unique_from sort_by insert_by str_ltb
unique_strings values = sort_by str_ltb (unique_from [] values)

pub record CreateConfigurationCommand : Type 0 where
  pub name : Str
  pub format : Format
  pub content : Str
  pub compatible_models : List Str
  pub variables : Option Labels
  pub change_summary : Str
  pub created_by : Str

pub record CreateSubscriptionCommand : Type 0 where
  pub name : Str
  pub url : Str
  pub secret : Str
  pub event_types : List Str
  pub enabled : Option Bool

-- `if command.Format == "" { … }`
abbrev pub or_yaml : Format → Format
or_yaml (Format.other s) = if is_empty s then Format.yaml else Format.other s
or_yaml Format.yaml = Format.yaml
or_yaml Format.json = Format.json

-- The version after that of the first configuration that was found.
abbrev pub next_version : Result Error (List Configuration) → ℤ
next_version (err x) = pos 1
next_version (ok []) = pos 1
next_version (ok (c ∷ cs)) = int64 (c.version +ℤ pos 1)

abbrev pub or_true : Option Bool → Bool
or_true none = true
or_true (some b) = b

-- A check that returns the error of a field.
abbrev pub check : {f : Floats} {E A : Type 0} → Result E A → Str → Run f (Unit {0})
check (ok a) field = pure tt
check (err x) field = fail (validation field)

module _ (f : Floats) where
  pub record CreateRuleCommand : Type 0 where
    pub name : Str
    pub max_failure_rate : f.Float
    pub max_offline_rate : f.Float
    pub max_timeout_rate : f.Float
    pub critical_labels : Option Labels
    pub enabled : Option Bool

  -- The map of the three rates, and the first that is out of range where they are visited in the
  -- order of `visit`.
  abbrev pub rates : CreateRuleCommand → List (Str × f.Float)
  rates c =
      (bytes "max_failure_rate", c.max_failure_rate)
      ∷ (bytes "max_offline_rate", c.max_offline_rate)
      ∷ (bytes "max_timeout_rate", c.max_timeout_rate)
      ∷ []

  abbrev pub bad_rate : Str × f.Float → Bool
  bad_rate (field, value) = out_of_unit f value

  abbrev pub refuse_rate : Option (Str × f.Float) → Run f (Unit {0})
  refuse_rate none = pure tt
  refuse_rate (some (field, value)) = fail (validation field)

module _ (f : Floats) (e : Env) where
  abbrev pub new_configuration : CreateConfigurationCommand → Str → ℤ → Str → Time → Configuration
  new_configuration c actor version id at = record {
    id = id;
    name = trim_space c.name;
    content = trim_space c.content;
    content_sha256 = e.sha256 (trim_space c.content);
    change_summary = trim_space c.change_summary;
    created_by = fallback f e c.created_by actor;
    format = or_yaml c.format;
    version = version;
    compatible_models = unique_strings c.compatible_models;
    variables = clone_labels c.variables;
    status = Configuration.Status.draft;
    created_at = at;
    updated_at = at;
  }

  unfoldable pub create_configuration : CreateConfigurationCommand → Str → Run f Configuration
  unfolding trim_space unique_strings clone_labels int64 ◌+ℤ◌
  create_configuration c actor = do
    refuse (is_empty (trim_space c.name) || is_empty (trim_space c.content)) (validation [])
    refuse (not (Configuration.valid_format (or_yaml c.format))) (validation (bytes "format"))
    check (Configuration.validate_content (or_yaml c.format) (trim_space c.content))
        (bytes "content")
    existing ← attempt (
        query f e λ s.
          ok
            (list_configurations f e.like s (record {
              status = none;
              name = trim_space c.name;
              model = [];
              sort = bytes "version_desc";
              limit = pos 1;
              offset = pos 0;
            })).0)
    at ← now f e
    id ← new_id f e
    let entity = new_configuration c actor (next_version existing) id at
    execute f e λ s. Creation.create_configuration f s entity
    audit f e actor (bytes "configuration.created") (bytes "configuration") entity.id (
        (bytes "name", text entity.name)
        ∷ (bytes "version", number entity.version)
        ∷ (bytes "sha256", text entity.content_sha256)
        ∷ [])
    pure entity

  unfoldable pub publish_configuration : Str → Str → Run f Configuration
  publish_configuration id actor = do
    found ← query f e λ s. get_configuration f s id
    refuse (not (status_eq found.status Configuration.Status.draft)) invalid_state
    at ← now f e
    execute f e λ s. update_configuration_status f s id Configuration.Status.published at
    let entity = record found { status = Configuration.Status.published; updated_at = at }
    audit f e actor (bytes "configuration.published") (bytes "configuration") entity.id
        ((bytes "version", number entity.version) ∷ [])
    emit f e (bytes "configuration.published") entity.id (of_configuration entity)
    pure entity

  unfoldable pub deprecate_configuration : Str → Str → Run f Configuration
  deprecate_configuration id actor = do
    found ← query f e λ s. get_configuration f s id
    refuse (not (status_eq found.status Configuration.Status.published)) invalid_state
    at ← now f e
    execute f e λ s. update_configuration_status f s id Configuration.Status.deprecated at
    let entity = record found { status = Configuration.Status.deprecated; updated_at = at }
    audit f e actor (bytes "configuration.deprecated") (bytes "configuration") entity.id []
    pure entity

  abbrev pub new_rule : CreateRuleCommand f → Str → Time → Rule f
  new_rule c id at = record {
    id = id;
    name = trim_space c.name;
    max_failure_rate = c.max_failure_rate;
    max_offline_rate = c.max_offline_rate;
    max_timeout_rate = c.max_timeout_rate;
    critical_labels = clone_labels c.critical_labels;
    enabled = or_true c.enabled;
    created_at = at;
    updated_at = at;
  }

  unfoldable pub create_rule :
      (List (Str × f.Float) → List (Str × f.Float)) → CreateRuleCommand f → Str → Run f (Rule f)
  unfolding trim_space clone_labels
  create_rule visit c actor = do
    refuse (is_empty (trim_space c.name)) (validation (bytes "name"))
    refuse_rate f (find? (bad_rate f) (visit (rates f c)))
    at ← now f e
    id ← new_id f e
    let entity = new_rule c id at
    execute f e λ s. Creation.create_rule f s entity
    audit f e actor (bytes "rule.created") (bytes "rule") entity.id
        ((bytes "name", text entity.name) ∷ [])
    pure entity

  abbrev pub new_subscription : CreateSubscriptionCommand → Str → Time → Subscription
  new_subscription c id at = record {
    id = id;
    name = c.name;
    url = c.url;
    secret = c.secret;
    event_types = unique_strings c.event_types;
    enabled = or_true c.enabled;
    created_at = at;
    updated_at = at;
  }

  unfoldable pub create_subscription : CreateSubscriptionCommand → Str → Run f Subscription
  unfolding trim_space unique_strings
  create_subscription c actor = do
    check (Webhook.validate_url e.parse_url c.url) (bytes "url")
    refuse (is_empty (trim_space c.name) || is_empty (trim_space c.secret)) (validation [])
    at ← now f e
    id ← new_id f e
    let entity = new_subscription c id at
    execute f e λ s. Creation.create_subscription f s entity
    audit f e actor (bytes "webhook.created") (bytes "webhook") entity.id
        ((bytes "url", text entity.url) ∷ [])
    pure entity
