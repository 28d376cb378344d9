-- ===== src/Rollout/Plan.antt =====
-- internal/domain/rollout/planner.go: candidates in a stable pseudo-random order, cut into
-- batches. SHA-256 is a parameter: from a text to its digest, as bytes.
pub mod Sizes
pub mod Batches
pub mod Validity
pub mod Lookup
pub mod Order
pub mod Determinism
pub mod Shape
use mathlib.Core.List.{foldl}
use edge_rollout_control_ser.Base.{
  ℕ, zero, suc, ◌+◌, ◌*◌, ◌/◌, Bool, true, false, not, ◌||◌, ◌&&◌, Option, none, some, List, [],
  ◌∷◌, ◌++◌, map, Str, bytes, is_empty, ◌==◌, ltb, leb, if◌then◌else◌, length, take, drop, count_if,
  str_eq, str_ltb, sort_by, insert_by, contains, Result, ok, err, ◌>>=◌, ◌>>◌, fail_if,
}
use edge_rollout_control_ser.Base.Int.{
  ℤ, pos, negsuc, pos_part, ltb_ℤ, leb_ℤ, eq_ℤ, ◌+ℤ◌, ◌*ℤ◌, int64,
}
use edge_rollout_control_ser.Base.Time.{Time, time_add}

-- `labels` is `none` for a nil map.
pub record Candidate : Type 0 where
  pub device_id : Str
  pub hardware_model : Str
  pub labels : Option (List (Str × Str))
  pub online : Bool
  pub critical : Bool

pub record PlanOptions : Type 0 where
  pub rollout_id : Str
  pub batch_size : ℤ
  pub batch_percent : ℤ
  pub put_critical_first : Bool
  pub put_offline_last : Bool
  pub seed : Str

pub record Batch : Type 0 where
  pub number : ℕ
  pub candidates : List Candidate
  pub online : ℕ
  pub offline : ℕ
  pub critical : ℕ

pub record Plan : Type 0 where
  pub batches : List Batch
  pub total : ℤ
  pub batch_size : ℤ
  pub batch_count : ℤ

-- Errors of the planner, one for each message; a text or a number is what the message names.
pub data PlanError : Type 0 where
  no_candidates no_rollout_id bad_percent no_device_id : PlanError
  duplicate_candidate : Str → PlanError
  bad_metadata bad_numbering : PlanError
  bad_size : ℕ → PlanError
  repeated_candidate : Str → PlanError
  bad_total bad_timing : PlanError

-- Go's integer division truncates towards zero.
abbrev pub div_ℤ : ℤ → ℕ → ℤ
div_ℤ (pos n) k = pos (n / k)
div_ℤ (negsuc n) k = let q = suc n / k in elim q [ zero ↦ pos 0 | suc p ↦ negsuc p ]

unfoldable pub calculate_batch_size : ℤ → ℤ → ℤ → ℤ
calculate_batch_size total explicit percent =
    if leb_ℤ total (pos 0)
    then pos 0
    else if ltb_ℤ (pos 0) explicit
    then (if ltb_ℤ total explicit then total else explicit)
    else if ltb_ℤ (pos 0) percent
    then (let value = div_ℤ (int64 (int64 (total *ℤ percent) +ℤ pos 99)) 100 in
        if ltb_ℤ value (pos 1) then pos 1 else value)
    else total

-- A nil map of labels is replaced by an empty one.
abbrev pub with_labels : Candidate → Candidate
with_labels c = record c { labels = elim c.labels [ none ↦ some [] | some l ↦ some l ] }

unfoldable pub normalize_from : List Str → List Candidate → Result PlanError (List Candidate)
normalize_from seen [] = ok []
normalize_from seen (c ∷ cs) =
    let rest = normalize_from (c.device_id ∷ seen) cs in
    if is_empty c.device_id
    then err no_device_id
    else if contains seen c.device_id
    then err (duplicate_candidate c.device_id)
    else (rest >>= λ items. ok (with_labels c ∷ items))

unfoldable pub normalize_candidates : List Candidate → Result PlanError (List Candidate)
unfolding normalize_from
normalize_candidates = normalize_from []

abbrev pub bool_eq : Bool → Bool → Bool
bool_eq true b = b
bool_eq false b = not b

-- The loop of `BuildPlan` with `items[start:]` for `start`: each round takes the next batch. The
-- first number is the fuel, and `none` is a loop that does not end.
abbrev pub make_batch : ℕ → List Candidate → Batch
make_batch number cs = record {
  number = number;
  candidates = cs;
  online = count_if (λ c. c.online) cs;
  offline = count_if (λ c. not c.online) cs;
  critical = count_if (λ c. c.critical) cs;
}

abbrev pub cons_batch : Batch → Option (List Batch) → Option (List Batch)
cons_batch b none = none
cons_batch b (some bs) = some (b ∷ bs)

unfoldable pub make_batches : ℕ → ℕ → ℕ → List Candidate → Option (List Batch)
make_batches fuel size number [] = some []
make_batches zero size number (c ∷ cs) = none
make_batches (suc fuel) size number (c ∷ cs) =
    cons_batch (make_batch number (take size (c ∷ cs)))
      (make_batches fuel size (suc number) (drop size (c ∷ cs)))

module _ (sha256 : Str → List ℕ) where
  -- The first eight bytes of the digest, big-endian.
  unfoldable pub stable_hash : Str → Str → ℕ
  stable_hash seed value =
      foldl (λ n b. n * 256 + b) 0 (take 8 (sha256 (seed ++ bytes ":" ++ value)))

  unfoldable pub candidate_less : PlanOptions → Candidate → Candidate → Bool
  candidate_less options left right =
      if options.put_critical_first && not (bool_eq left.critical right.critical)
      then left.critical
      else if options.put_offline_last && not (bool_eq left.online right.online)
      then left.online
      else (let left_hash = stable_hash (options.seed ++ options.rollout_id) left.device_id in
          let right_hash = stable_hash (options.seed ++ options.rollout_id) right.device_id in
          if left_hash == right_hash
          then str_ltb left.device_id right.device_id
          else ltb left_hash right_hash)

  unfoldable pub order_candidates : List Candidate → PlanOptions → List Candidate
  unfolding sort_by candidate_less
  order_candidates items options = sort_by (candidate_less options) items

  -- The plan of ordered items; a batch size that is not positive never ends the loop.
  unfoldable pub plan_of : List Candidate → ℤ → Option Plan
  unfolding make_batches
  plan_of items size = elim (make_batches (length items) (pos_part size) 1 items) [
    | none ↦ none
    | some bs ↦ some (record {
      batches = bs;
      total = pos (length items);
      batch_size = size;
      batch_count = pos (length bs);
    })
  ]

  -- `none` is a call that does not return.
  unfoldable pub build_plan : List Candidate → PlanOptions → Option (Result PlanError Plan)
  unfolding plan_of normalize_candidates order_candidates calculate_batch_size
  build_plan candidates options =
      if length candidates == 0
      then some (err no_candidates)
      else if is_empty options.rollout_id
      then some (err no_rollout_id)
      else if ltb_ℤ options.batch_percent (pos 0) || ltb_ℤ (pos 100) options.batch_percent
      then some (err bad_percent)
      else elim (normalize_candidates candidates) [
        | err e ↦ some (err e)
        | ok items ↦
            elim (plan_of (order_candidates items options) (
              calculate_batch_size (pos (length items)) options.batch_size options.batch_percent)) [
                | none ↦ none
                | some plan ↦ some (ok plan)
              ]
      ]

-- The inner loop of `Validate`: the keys seen and the count go on through all batches.
unfoldable pub check_candidates : List Str → ℕ → List Candidate → Result PlanError (List Str × ℕ)
check_candidates seen count [] = ok (seen, count)
check_candidates seen count (c ∷ cs) =
    let rest = check_candidates (c.device_id ∷ seen) (suc count) cs in
    if contains seen c.device_id then err (repeated_candidate c.device_id) else rest

abbrev pub fits : ℤ → Batch → Bool
fits size b = not (length b.candidates == 0 || ltb_ℤ size (pos (length b.candidates)))

unfoldable pub check_batches : ℤ → ℕ → List Str → ℕ → List Batch → Result PlanError (List Str × ℕ)
unfolding check_candidates
check_batches size index seen count [] = ok (seen, count)
check_batches size index seen count (b ∷ bs) =
    let rest = λ (state : List Str × ℕ). check_batches size (suc index) state.0 state.1 bs in
    if not (b.number == suc index)
    then err bad_numbering
    else if not (fits size b)
    then err (bad_size b.number)
    else (check_candidates seen count b.candidates >>= rest)

unfoldable pub validate : Plan → Result PlanError (Unit {0})
unfolding check_batches
validate p =
    if leb_ℤ p.total (pos 0)
      || leb_ℤ p.batch_size (pos 0)
      || not (eq_ℤ p.batch_count (pos (length p.batches)))
    then err bad_metadata
    else (check_batches p.batch_size 0 [] 0 p.batches >>= λ state.
        if not (eq_ℤ (pos state.1) p.total) then err bad_total else ok tt)

pub record BatchWindow : Type 0 where
  pub batch_number : ℕ
  pub start_at : Time
  pub deadline_at : Time

-- 1970-01-01 in nanoseconds since the zero time.
abbrev pub unix_epoch : ℕ
unix_epoch = 62135596800000000000

-- The loop of `BuildBatchWindows`; the first number is the rounds left.
unfoldable pub windows_from : ℕ → ℕ → Time → ℤ → ℤ → List BatchWindow
unfolding time_add
windows_from zero index origin interval timeout = []
windows_from (suc left) index origin interval timeout =
    let start = time_add origin (int64 (pos index *ℤ interval)) in
    record { batch_number = suc index; start_at = start; deadline_at = time_add start timeout }
    ∷ windows_from left (suc index) origin interval timeout

unfoldable pub build_batch_windows : Plan → ℤ → ℤ → ℤ → Result PlanError (List BatchWindow)
unfolding windows_from validate
build_batch_windows plan start_at interval timeout = do
  validate plan
  fail_if (ltb_ℤ interval (pos 0) || leb_ℤ timeout (pos 0)) bad_timing
  ok (windows_from (pos_part plan.batch_count) 0 (time_add unix_epoch start_at) interval timeout)

unfoldable pub ids_of : List Candidate → List Str
ids_of = map (λ c. c.device_id)

unfoldable pub batch_ids : List Batch → List Str
unfolding ids_of
batch_ids [] = []
batch_ids (b ∷ bs) = ids_of b.candidates ++ batch_ids bs

unfoldable pub candidate_ids : Plan → List Str
unfolding batch_ids
candidate_ids p = batch_ids p.batches

unfoldable pub find_in : Str → List Candidate → Option Candidate
find_in id [] = none
find_in id (c ∷ cs) = let rest = find_in id cs in if str_eq c.device_id id then some c else rest

unfoldable pub find_batches : Str → List Batch → Option (Candidate × ℕ)
unfolding find_in
find_batches id [] = none
find_batches id (b ∷ bs) =
    let rest = find_batches id bs in
    elim (find_in id b.candidates) [ some c ↦ some (c, b.number) | none ↦ rest ]

unfoldable pub find_candidate : Plan → Str → Option (Candidate × ℕ)
unfolding find_batches
find_candidate p id = find_batches id p.batches
