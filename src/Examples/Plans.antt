-- ===== src/Examples/Plans.antt =====
-- A plan for three devices, in batches of two.
use mathlib.Core.List.Perm
use edge_rollout_control_ser.Base.{
  ℕ, ◌≡◌, refl, Bool, true, false, some, List, [], ◌∷◌, Str, bytes, arith, ok, err, contains,
  str_eq,
}
use edge_rollout_control_ser.Base.Int.{pos, ◌≤ℤ◌}
use edge_rollout_control_ser.Rollout.Plan.{
  Candidate, PlanOptions, Plan, build_plan, calculate_batch_size, duplicate_candidate, stable_hash,
}
use edge_rollout_control_ser.Rollout.Plan.Validity.{IsPlanned, build_plan-IsPlanned}
use edge_rollout_control_ser.Rollout.Plan.Determinism.{build_plan-perm}
use edge_rollout_control_ser.Rollout.Plan.Shape.{IsShaped, build_plan-IsShaped}
use edge_rollout_control_ser.Rollout.Plan.Sizes.{calculate_batch_size_bounds}

abbrev candidate : Str → Bool → Candidate
candidate id critical = record {
  device_id = id;
  hardware_model = bytes "m1";
  labels = some [];
  online = true;
  critical = critical;
}

-- A digest that is the text itself.
abbrev digest : Str → List ℕ
digest s = s

abbrev fleet : List Candidate
fleet = candidate (bytes "c") false ∷ candidate (bytes "b") true ∷ candidate (bytes "a") false ∷ []

abbrev options : PlanOptions
options = record {
  rollout_id = bytes "r";
  batch_size = pos 2;
  batch_percent = pos 0;
  put_critical_first = true;
  put_offline_last = false;
  seed = [];
}

abbrev plan : Plan
plan = record {
  batches =
      record {
        number = 1;
        candidates = candidate (bytes "b") true ∷ candidate (bytes "a") false ∷ [];
        online = 2;
        offline = 0;
        critical = 1;
      }
      ∷ record {
        number = 2;
        candidates = candidate (bytes "c") false ∷ [];
        online = 1;
        offline = 0;
        critical = 0;
      }
      ∷ [];
  total = pos 3;
  batch_size = pos 2;
  batch_count = pos 2;
}

fleet-plan : build_plan digest fleet options ≡ some (ok plan)
unfolding build_plan contains str_eq stable_hash
fleet-plan = refl

twice :
    build_plan digest (candidate (bytes "a") true ∷ candidate (bytes "a") false ∷ []) options
    ≡ some (err (duplicate_candidate (bytes "a")))
unfolding build_plan contains str_eq
twice = refl

build_plan-IsPlanned_example : IsPlanned fleet (build_plan digest fleet options)
build_plan-IsPlanned_example = build_plan-IsPlanned digest fleet options (omega arith)

build_plan-perm_example :
    build_plan digest
      (candidate (bytes "b") true ∷ candidate (bytes "c") false ∷ candidate (bytes "a") false ∷ [])
      options
    ≡ some (ok plan)
build_plan-perm_example =
    build_plan-perm digest fleet
      (candidate (bytes "b") true ∷ candidate (bytes "c") false ∷ candidate (bytes "a") false ∷ [])
      options plan (Perm.swap _ _ _) fleet-plan

build_plan-IsShaped_example : IsShaped 3 plan
build_plan-IsShaped_example = build_plan-IsShaped digest fleet options plan (omega arith) fleet-plan

calculate_batch_size_bounds_example :
    (pos 1 ≤ℤ calculate_batch_size (pos 3) (pos 0) (pos 10))
    × (calculate_batch_size (pos 3) (pos 0) (pos 10) ≤ℤ pos 3)
calculate_batch_size_bounds_example =
    calculate_batch_size_bounds 3 (pos 0) (pos 10) (omega arith) (omega arith) (omega arith)
