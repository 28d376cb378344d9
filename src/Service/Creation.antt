-- ===== src/Service/Creation.antt =====
-- internal/application/service.go: creating a rollout with its targets, in one transaction.
pub mod Resolving
pub mod Storing
pub mod Created
pub mod Sizes
use edge_rollout_control_ser.Base.{
  ℕ, suc, ◌+◌, ◌/◌, ◌==◌, Bool, true, false, not, ◌||◌, ◌&&◌, Option, none, some, List, [], ◌∷◌,
  map, Str, bytes, is_empty, trim_space, str_eq, str_ltb, contains, any_of, select, sort_by,
  insert_by, length, if◌then◌else◌, Result, ok, err,
}
use edge_rollout_control_ser.Base.Int.{ℤ, pos, pos_part, ltb_ℤ, leb_ℤ}
use edge_rollout_control_ser.Base.Time.{Time, is_zero}
use edge_rollout_control_ser.Base.Floats.{Floats}
use edge_rollout_control_ser.Rollout
use edge_rollout_control_ser.Rollout.{Rollout, Target, Strategy, valid_strategy}
use edge_rollout_control_ser.Device
use edge_rollout_control_ser.Device.{Device}
use edge_rollout_control_ser.Configuration
use edge_rollout_control_ser.Configuration.{Configuration}
use edge_rollout_control_ser.Audit.{number}
use edge_rollout_control_ser.Store.{
  Error, invalid_entity, invalid_state, validation, database, Store,
}
use edge_rollout_control_ser.Store.Rows.{get_configuration, get_device}
use edge_rollout_control_ser.Store.Creation.{insert_rollout, insert_target}
use edge_rollout_control_ser.Store.Listings.{resolve_group}
use edge_rollout_control_ser.Service.{
  Env, World, Run, of_rollout, pure, fail, refuse, ◌>>=◌, ◌>>◌, now, new_id, query, execute,
  fallback, audit, emit,
}

pub record CreateRolloutCommand : Type 0 where
  pub name : Str
  pub configuration_id : Str
  pub group_id : Str
  pub device_ids : List Str
  pub strategy : Strategy
  pub batch_size : ℤ
  pub batch_percent : ℤ
  pub scheduled_at : Option Time
  pub rule_id : Str
  pub rollback_configuration_id : Str
  pub created_by : Str

-- `byID[key] = d`
unfoldable pub put : Str → Device → List (Str × Device) → List (Str × Device)
unfolding str_eq
put key d [] = (key, d) ∷ []
put key d ((k, old) ∷ by_id) =
    let rest = put key d by_id in if str_eq k key then (k, d) ∷ by_id else (k, old) ∷ rest

unfoldable pub put_all : List Device → List (Str × Device) → List (Str × Device)
unfolding put
put_all [] by_id = by_id
put_all (d ∷ ds) by_id = put_all ds (put d.id d by_id)

abbrev pub id_less : Device → Device → Bool
id_less a b = str_ltb a.id b.id

abbrev pub is_live : Device → Bool
is_live d = not (Device.status_eq d.status Device.Status.retired)

abbrev pub value_of : Str × Device → Device
value_of (key, d) = d

-- The devices that are not retired, by their ids.
unfoldable pub targets_of : List (Str × Device) → List Device
unfolding sort_by insert_by str_ltb
targets_of by_id = sort_by id_less (select is_live (map value_of by_id))

-- `if command.Strategy == "" { … }`
abbrev pub or_immediate : Strategy → Strategy
or_immediate (Strategy.other s) = if is_empty s then Strategy.immediate else Strategy.other s
or_immediate Strategy.immediate = Strategy.immediate
or_immediate Strategy.scheduled = Strategy.scheduled
or_immediate Strategy.percentage = Strategy.percentage

abbrev pub is_scheduled : Strategy → Bool
is_scheduled Strategy.scheduled = true
is_scheduled _ = false

abbrev pub has_no_time : Option Time → Bool
has_no_time none = true
has_no_time (some t) = is_zero t

-- No model listed means all of them.
unfoldable pub has_incompatible : List Str → List Device → Bool
unfolding contains str_eq
has_incompatible models devices =
    not (length models == 0)
    && any_of (λ (d : Device). not (contains models d.hardware_model)) devices

-- A size that is not positive or more than there are devices becomes their number.
unfoldable pub clamp_batch : ℤ → ℕ → ℤ
clamp_batch size count = if leb_ℤ size (pos 0) || ltb_ℤ (pos count) size then pos count else size

module _ (f : Floats) (e : Env) where
  abbrev pub commit : {A : Type 0} → Store f → Result Error A × World f → Result Error A × World f
  commit before (err x, w) = (err x, record w { store = before })
  commit before (ok a, w) =
      if e.fails w.calls
      then (err database, record w { store = before; calls = suc w.calls })
      else (ok a, record w { calls = suc w.calls })

  -- `BeginTx`, the statements, and `Commit`; without it the tables are as they were before.
  unfoldable pub transaction : {A : Type 0} → Run f A → Run f A
  transaction m w =
      let begun = record w { calls = suc w.calls } in
      if e.fails w.calls then (err database, begun) else commit w.store (m begun)

  unfoldable pub insert_targets : List Target → Run f (Unit {0})
  insert_targets [] = pure tt
  insert_targets (t ∷ ts) = do execute f e λ s. insert_target f s t; insert_targets ts

  -- `CreateRollout` of the repository.
  unfoldable pub store_rollout : Rollout → List Target → Run f (Unit {0})
  unfolding transaction insert_targets
  store_rollout r ts = elim (Rollout.validate r) [
    | err x ↦ fail invalid_entity
    | ok u ↦ transaction (do execute f e (λ s. insert_rollout f s r); insert_targets ts)
  ]

  unfoldable pub load_all : List Str → List (Str × Device) → Run f (List (Str × Device))
  unfolding put
  load_all [] by_id = pure by_id
  load_all (id ∷ ids) by_id = do d ← query f e λ s. get_device f s id; load_all ids (put id d by_id)

  unfoldable pub resolve_targets : Str → List Str → Run f (List Device)
  unfolding load_all put_all targets_of
  resolve_targets group_id ids = do
    items ←
        (if is_empty group_id then pure [] else query f e (λ s. resolve_group f e.like s group_id))
    by_id ← load_all ids (put_all items [])
    pure (targets_of by_id)

  abbrev pub asked_size : CreateRolloutCommand → ℕ → ℤ
  asked_size c count =
      if ltb_ℤ (pos 0) c.batch_percent then e.percentage count c.batch_percent else c.batch_size

  abbrev pub new_rollout : CreateRolloutCommand → Str → ℕ → Str → Time → Rollout
  new_rollout c actor count id at = record {
    id = id;
    name = trim_space c.name;
    configuration_id = c.configuration_id;
    group_id = c.group_id;
    pause_reason = [];
    rollback_configuration_id = c.rollback_configuration_id;
    rule_id = c.rule_id;
    created_by = fallback f e c.created_by actor;
    strategy = or_immediate c.strategy;
    batch_size = clamp_batch (asked_size c count) count;
    batch_percent = c.batch_percent;
    current_batch = 0;
    target_count = pos count;
    success_count = 0;
    failure_count = 0;
    timeout_count = 0;
    scheduled_at = c.scheduled_at;
    status = Rollout.Status.draft;
    created_at = at;
    updated_at = at;
    started_at = none;
    completed_at = none;
  }

  abbrev pub new_target : Rollout → Time → Device → ℕ → Str → Target
  new_target r at d index id = record {
    id = id;
    rollout_id = r.id;
    device_id = d.id;
    desired_configuration_id = r.configuration_id;
    error_code = [];
    error_message = [];
    batch_number = index / pos_part r.batch_size + 1;
    status = Rollout.TargetStatus.pending;
    delivered_at = none;
    acknowledged_at = none;
    created_at = at;
    updated_at = at;
  }

  -- The loop over the devices, from an index.
  unfoldable pub make_targets : Rollout → Time → ℕ → List Device → Run f (List Target)
  make_targets r at index [] = pure []
  make_targets r at index (d ∷ ds) = do
    id ← new_id f e
    rest ← make_targets r at (suc index) ds
    pure (new_target r at d index id ∷ rest)

  unfoldable pub create_rollout : CreateRolloutCommand → Str → Run f Rollout
  unfolding trim_space clamp_batch has_incompatible resolve_targets make_targets store_rollout
  create_rollout c actor = do
    refuse (is_empty (trim_space c.name) || is_empty c.configuration_id) (validation [])
    configuration ← query f e λ s. get_configuration f s c.configuration_id
    refuse (not (Configuration.status_eq configuration.status Configuration.Status.published))
        invalid_state
    devices ← resolve_targets c.group_id c.device_ids
    refuse (length devices == 0) (validation (bytes "targets"))
    refuse (has_incompatible configuration.compatible_models devices) (validation (bytes "targets"))
    refuse (not (valid_strategy (or_immediate c.strategy))) (validation (bytes "strategy"))
    at ← now f e
    id ← new_id f e
    let entity = new_rollout c actor (length devices) id at
    refuse (is_scheduled c.strategy && has_no_time c.scheduled_at)
        (validation (bytes "scheduled_at"))
    targets ← make_targets entity at 0 devices
    store_rollout entity targets
    audit f e actor (bytes "rollout.created") (bytes "rollout") entity.id (
        (bytes "target_count", number (pos (length targets)))
        ∷ (bytes "batch_size", number entity.batch_size)
        ∷ [])
    emit f e (bytes "rollout.created") entity.id (of_rollout entity)
    pure entity
