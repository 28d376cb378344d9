-- ===== src/Examples/Fleets.antt =====
-- Devices, versions and labels.
use mathlib.Core.List.{Nodup}
use mathlib.Core.List.Perm
use edge_rollout_control_ser.Base.{
  ℕ, ◌≡◌, ◌≢◌, ◌↔◌, refl, true, false, some, [], ◌∷◌, Str, bytes, str_eq, ok, All, Fresh→Nodup,
  contains,
}
use edge_rollout_control_ser.Base.Int.{pos}
use edge_rollout_control_ser.Device.{Device, Status, Term, Labels}
use edge_rollout_control_ser.Device.Health.{
  Health, HealthPolicy, evaluate_health, apply_health_policy, validate,
}
use edge_rollout_control_ser.Device.Health.Laws.{apply_health_policy_settles}
use edge_rollout_control_ser.Device.Version.{
  SemanticVersion, VersionConstraint, match_constraint, parse_semantic_version,
}
use edge_rollout_control_ser.Device.Selector.{
  SelectorExpression, matches, label_at, label_fingerprint, parse_selector_expression,
}
use edge_rollout_control_ser.Device.Selector.Laws.{matches_iff, label_fingerprint-perm}

abbrev device : Device
device = record {
  id = bytes "d";
  name = bytes "gate";
  hardware_model = bytes "m1";
  software_version = bytes "1.2.0";
  labels = some [];
  status = Status.online;
  current_configuration_id = [];
  last_heartbeat_at = 100;
  created_at = 1;
  updated_at = 1;
}

abbrev policy : HealthPolicy
policy = record { stale_after = pos 10; offline_after = pos 50 }

policy-valid : validate policy ≡ ok tt
unfolding validate
policy-valid = refl

abbrev lost : Device
lost = record device { status = Status.offline; updated_at = 200 }

loses : apply_health_policy (some device) 200 policy ≡ (some lost, true)
unfolding apply_health_policy
loses = refl

apply_health_policy_settles_example :
    ((Status.offline ≡ Status.offline) ↔ (evaluate_health lost 200 policy ≡ Health.offline))
    × (evaluate_health lost 200 policy ≡ evaluate_health device 200 policy)
    × (apply_health_policy (some lost) 200 policy ≡ (some lost, false))
apply_health_policy_settles_example =
    apply_health_policy_settles device lost 200 policy true (λ e. absurd cc) (λ e. absurd cc) loses

abbrev version : ℕ → Str → SemanticVersion
version minor prerelease = record {
  major = pos 1;
  minor = pos minor;
  patch = pos 0;
  prerelease = prerelease;
  build = [];
}

parses : parse_semantic_version (bytes "1.2.0-rc.1") ≡ ok (version 2 (bytes "rc.1"))
unfolding parse_semantic_version
parses = refl

abbrev constraint : VersionConstraint
constraint = record { minimum = some (version 2 []); maximum = some (version 6 []) }

low : match_constraint constraint (version 3 []) ≡ true
unfolding match_constraint
low = refl

high : match_constraint constraint (version 5 []) ≡ true
unfolding match_constraint
high = refl

abbrev labels : Labels
labels = (bytes "zone", bytes "a") ∷ (bytes "role", bytes "edge") ∷ []

abbrev expression : SelectorExpression
expression = record { terms = record { key = bytes "zone"; value = bytes "a" } ∷ [] }

parses_expression : parse_selector_expression (bytes " zone=a") ≡ ok expression
unfolding parse_selector_expression
parses_expression = refl

matches_iff_example : (matches expression labels ≡ true) ↔ (
    (expression.terms ≢ []) × All (λ (t : Term). label_at labels t.key ≡ t.value) expression.terms)
matches_iff_example = matches_iff expression labels

keys_differ : Nodup (bytes "zone" ∷ bytes "role" ∷ [])
unfolding contains str_eq
keys_differ = Fresh→Nodup [] (bytes "zone" ∷ bytes "role" ∷ []) (refl, (refl, tt))

label_fingerprint-perm_example :
    label_fingerprint labels
    ≡ label_fingerprint ((bytes "role", bytes "edge") ∷ (bytes "zone", bytes "a") ∷ [])
label_fingerprint-perm_example =
    label_fingerprint-perm labels ((bytes "role", bytes "edge") ∷ (bytes "zone", bytes "a") ∷ [])
      keys_differ (Perm.swap _ _ _)
