-- ===== src/Service/Reporting.antt =====
-- internal/application/reporting.go: the reports on rollouts, devices and the whole fleet, and the
-- clean-up of filters and ids.
pub mod Totals
pub mod Normal
use edge_rollout_control_ser.Base.{
  ℕ, suc, ◌+◌, ltb, Bool, true, false, Option, none, some, List, [], ◌∷◌, map, Str, is_empty,
  trim_space, str_eq, contains, length, sort_by, insert_by, if◌then◌else◌, Result, ok, err,
}
use edge_rollout_control_ser.Base.Int.{ℤ, pos, ltb_ℤ}
use edge_rollout_control_ser.Base.Time.{Time}
use edge_rollout_control_ser.Base.Floats.{Floats}
use edge_rollout_control_ser.Rollout
use edge_rollout_control_ser.Rollout.{Rollout, Target}
use edge_rollout_control_ser.Rollout.Progress.{Progress, build_progress}
use edge_rollout_control_ser.Device
use edge_rollout_control_ser.Device.{Device}
use edge_rollout_control_ser.Configuration.{Configuration}
use edge_rollout_control_ser.Rule.{Rule}
use edge_rollout_control_ser.Receipt
use edge_rollout_control_ser.Receipt.{Receipt}
use edge_rollout_control_ser.Store.{Error}
use edge_rollout_control_ser.Store.Rows.{
  RolloutFilter, get_rollout, get_device, get_configuration, get_rule, list_rollouts,
}
use edge_rollout_control_ser.Store.Targets.{batch_less, list_targets, get_target}
use edge_rollout_control_ser.Store.Listings.{
  DeviceFilter, ReceiptFilter, list_devices, list_receipts,
}
use edge_rollout_control_ser.Service.{Env, Run, pure, ◌>>=◌, now, query, attempt}

pub record RolloutReport (f : Floats) : Type 0 where
  pub rollout : Rollout
  pub targets : List Target
  pub progress : Progress f
  pub configuration : Configuration
  pub rule : Option (Rule f)
  pub generated_at : Time

pub record DeviceSummary : Type 0 where
  pub device : Device
  pub rollouts : ℕ
  pub receipts : ℕ
  pub last_receipt : Option Receipt
  pub configurations : List Configuration

pub record Dashboard (f : Floats) : Type 0 where
  pub generated_at : Time
  pub device_count : ℕ
  pub online_devices : ℕ
  pub offline_devices : ℕ
  pub active_rollouts : ℕ
  pub paused_rollouts : ℕ
  pub completed_rollouts : ℕ
  pub pending_receipts : ℕ
  pub failed_receipts : ℕ
  pub failure_rate : f.Float

-- `configurationMap[c.ID] = c`
unfoldable pub put_configuration : Configuration → List Configuration → List Configuration
unfolding str_eq
put_configuration c [] = c ∷ []
put_configuration c (old ∷ cs) =
    let rest = put_configuration c cs in if str_eq old.id c.id then c ∷ cs else old ∷ rest

abbrev pub made_before : Configuration → Configuration → Bool
made_before a b = ltb a.created_at b.created_at

-- The loop over the receipts after the first.
unfoldable pub last_of : Receipt → List Receipt → Receipt
last_of last [] = last
last_of last (r ∷ rs) = last_of (if ltb last.received_at r.received_at then r else last) rs

abbrev pub last_receipt_of : List Receipt → Option Receipt
last_receipt_of [] = none
last_receipt_of (r ∷ rs) = some (last_of r rs)

abbrev pub is_failure : Receipt.Status → Bool
is_failure Receipt.Status.timeout = true
is_failure Receipt.Status.failed = true
is_failure Receipt.Status.succeeded = false
is_failure (Receipt.Status.other s) = false

unfoldable pub count_failed : List Receipt → ℕ → ℕ
count_failed [] failed = failed
count_failed (r ∷ rs) failed = count_failed rs (if is_failure r.status then suc failed else failed)

module _ {f : Floats} where
  abbrev pub count_device : Device.Status → Dashboard f → Dashboard f
  count_device Device.Status.online b = record b { online_devices = suc b.online_devices }
  count_device Device.Status.offline b = record b { offline_devices = suc b.offline_devices }
  count_device Device.Status.pending b = b
  count_device Device.Status.retired b = b

  unfoldable pub count_devices : List Device → Dashboard f → Dashboard f
  count_devices [] b = b
  count_devices (d ∷ ds) b = count_devices ds (count_device d.status b)

  abbrev pub active : Dashboard f → Dashboard f
  active b = record b { active_rollouts = suc b.active_rollouts }

  -- A pending rollout is a draft.
  abbrev pub count_rollout : Rollout.Status → Dashboard f → Dashboard f
  count_rollout Rollout.Status.running b = active b
  count_rollout Rollout.Status.scheduled b = active b
  count_rollout Rollout.Status.draft b = active b
  count_rollout Rollout.Status.paused b = record b { paused_rollouts = suc b.paused_rollouts }
  count_rollout Rollout.Status.completed b = record b {
    completed_rollouts = suc b.completed_rollouts;
  }
  count_rollout Rollout.Status.failed b = b
  count_rollout Rollout.Status.cancelled b = b
  count_rollout Rollout.Status.rolled_back b = b
  count_rollout Rollout.Status.rolling_back b = b

  unfoldable pub count_rollouts : List Rollout → Dashboard f → Dashboard f
  count_rollouts [] b = b
  count_rollouts (r ∷ rs) b = count_rollouts rs (count_rollout r.status b)

  abbrev pub count_receipt : Receipt.Status → Dashboard f → Dashboard f
  count_receipt Receipt.Status.timeout b = record b { pending_receipts = suc b.pending_receipts }
  count_receipt Receipt.Status.failed b = record b { failed_receipts = suc b.failed_receipts }
  count_receipt Receipt.Status.succeeded b = b
  count_receipt (Receipt.Status.other s) b = b

  unfoldable pub count_receipts : List Receipt → Dashboard f → Dashboard f
  count_receipts [] b = b
  count_receipts (r ∷ rs) b = count_receipts rs (count_receipt r.status b)

  abbrev pub blank : Time → ℕ → Dashboard f
  blank at devices = record {
    generated_at = at;
    device_count = devices;
    online_devices = 0;
    offline_devices = 0;
    active_rollouts = 0;
    paused_rollouts = 0;
    completed_rollouts = 0;
    pending_receipts = 0;
    failed_receipts = 0;
    failure_rate = f.zero;
  }

  -- What `BuildDashboard` makes of the three lists.
  unfoldable pub summarize : Time → List Device → List Rollout → List Receipt → Dashboard f
  unfolding count_devices count_rollouts count_receipts count_failed
  summarize at devices rollouts receipts =
      let counted =
        count_receipts receipts
          (count_rollouts rollouts (count_devices devices (blank at (length devices)))) in
      if ltb 0 (length receipts)
      then record counted {
        failure_rate = f.ratio (pos (count_failed receipts 0)) (length receipts);
      }
      else counted

abbrev any_rollout : RolloutFilter
any_rollout = record {
  status = none;
  configuration_id = [];
  group_id = [];
  limit = pos 1000;
  offset = pos 0;
}

abbrev receipts_of : Str → ReceiptFilter
receipts_of device = record {
  rollout_id = [];
  device_id = device;
  status = none;
  limit = pos 1000;
  offset = pos 0;
}

abbrev any_device : DeviceFilter
any_device = record {
  status = none;
  hardware_model = [];
  label_key = [];
  label_value = [];
  query = [];
  limit = pos 1000;
  offset = pos 0;
}

abbrev value_of : {A : Type 0} → Result Error A → Option A
value_of (ok a) = some a
value_of (err x) = none

module _ (f : Floats) (e : Env) where
  abbrev pub find_rule : Str → Run f (Option (Rule f))
  find_rule id =
      if is_empty id
      then pure none
      else (do r ← attempt (query f e λ s. get_rule f s id); pure (value_of r))

  unfoldable pub build_rollout_report : Str → Run f (RolloutReport f)
  unfolding sort_by insert_by str_eq
  build_rollout_report id = do
    entity ← query f e λ s. get_rollout f s id
    targets ← query f e λ s.
        ok
          (list_targets f s id
            (record { status = none; batch_number = 0; limit = pos 10000; offset = pos 0 })).0
    configuration ← query f e λ s. get_configuration f s entity.configuration_id
    rule ← find_rule entity.rule_id
    at ← now f e
    pure (record {
      rollout = entity;
      targets = sort_by batch_less targets;
      progress = build_progress f (sort_by batch_less targets);
      configuration = configuration;
      rule = rule;
      generated_at = at;
    })

  abbrev pub add_configuration :
      List Configuration → Result Error Target → Run f (List Configuration)
  add_configuration cs (err x) = pure cs
  add_configuration cs (ok t) = do
    c ← attempt (query f e λ s. get_configuration f s t.desired_configuration_id)
    pure (elim (value_of c) [ none ↦ cs | some value ↦ put_configuration value cs ])

  -- The loop over the rollouts.
  unfoldable pub configurations_of :
      Str → List Rollout → List Configuration → Run f (List Configuration)
  unfolding put_configuration
  configurations_of device [] cs = pure cs
  configurations_of device (r ∷ rs) cs = do
    t ← attempt (query f e λ s. get_target f s r.id device)
    more ← add_configuration cs t
    configurations_of device rs more

  unfoldable pub build_device_summary : Str → Run f DeviceSummary
  unfolding configurations_of sort_by insert_by last_of
  build_device_summary id = do
    entity ← query f e λ s. get_device f s id
    receipts ← query f e λ s. ok (list_receipts f s (receipts_of id)).0
    rollouts ← query f e λ s. ok (list_rollouts f s any_rollout).0
    configurations ← configurations_of id rollouts []
    pure (record {
      device = entity;
      rollouts = length rollouts;
      receipts = length receipts;
      last_receipt = last_receipt_of receipts;
      configurations = sort_by made_before configurations;
    })

  unfoldable pub build_dashboard : Run f (Dashboard f)
  unfolding summarize
  build_dashboard = do
    devices ← query f e λ s. ok (list_devices f e.like s any_device).0
    rollouts ← query f e λ s. ok (list_rollouts f s any_rollout).0
    receipts ← query f e λ s. ok (list_receipts f s (receipts_of [])).0
    at ← now f e
    pure (summarize at devices rollouts receipts)

pub data TextError : Type 0 where
  too_long is_blank : TextError

unfoldable pub validate_filter_text : Str → ℤ → Result TextError Str
unfolding trim_space
validate_filter_text value max =
    if ltb_ℤ max (pos (length (trim_space value))) then err too_long else ok (trim_space value)

-- The loop of `NormalizeIDs`.
unfoldable pub normalize_from : List Str → List Str → Result TextError (List Str)
unfolding trim_space contains
normalize_from seen [] = ok []
normalize_from seen (v ∷ values) =
    let skipped = normalize_from seen values in
    let taken = normalize_from (trim_space v ∷ seen) values in
    if is_empty (trim_space v)
    then err is_blank
    else if ltb 128 (length (trim_space v))
    then err too_long
    else if contains seen (trim_space v)
    then skipped
    else elim taken [ err x ↦ err x | ok rest ↦ ok (trim_space v ∷ rest) ]

unfoldable pub normalize_ids : List Str → Result TextError (List Str)
unfolding normalize_from
normalize_ids values = normalize_from [] values
