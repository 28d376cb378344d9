-- ===== src/Rollout/Plan/Shape.antt =====
-- The sizes and the number of the batches of a plan.
use edge_rollout_control_ser.Base.{
  ℕ, zero, suc, ◌+◌, ◌*◌, ◌≤◌, ◌<◌, ◌≡◌, ◌≢◌, refl, ◌∙◌, subst, some, List, [], ◌∷◌, Str, false,
  length, take, drop, length-take, length-drop, arith, ok, sort_by, length-sort_by,
}
use edge_rollout_control_ser.Base.Int.{ℤ, pos, negsuc, ◌≤ℤ◌}
use edge_rollout_control_ser.Rollout.Plan.{
  Candidate, Batch, Plan, PlanOptions, make_batch, make_batches, normalize_candidates,
  candidate_less, order_candidates, plan_of, build_plan,
}
use edge_rollout_control_ser.Rollout.Plan.Batches.{make_batches_round, Full, length-make_batches}
use edge_rollout_control_ser.Rollout.Plan.Validity.{normalize_from_ok}
use edge_rollout_control_ser.Rollout.Plan.Determinism.{build_plan_parts, build_plan-some, refuses}
use edge_rollout_control_ser.Rollout.Plan.Sizes.{calculate_batch_size_bounds}

-- One more batch in front of full ones: it is full, or it is the last.
Full-cons :
    (size : ℕ) (b : Batch) (rest : List Batch)
    → 0 < length b.candidates
    → length b.candidates ≤ size
    → (rest ≢ [] → length b.candidates ≡ size)
    → Full size rest
    → Full size (b ∷ rest)
Full-cons size b [] some_items small full f = (some_items, small)
Full-cons size b (d ∷ rest) some_items small full f = (full (λ e. cc), f)

Full-make_batches :
    (fuel size number : ℕ) (cs : List Candidate) (bs : List Batch)
    → 0 < size
    → make_batches fuel size number cs ≡ some bs
    → Full size bs
unfolding make_batches
Full-make_batches fuel size number [] bs h e = let n : bs ≡ [] = cc in rw n tt
Full-make_batches zero size number (c ∷ cs) bs h e = absurd (cc e)
Full-make_batches (suc fuel) size number (c ∷ cs) bs h e =
    let (rest, more, split) = make_batches_round fuel size number c cs bs e in
    let count = length-make_batches fuel size (suc number) (drop size (c ∷ cs)) rest h more in
    let took = length-take size (c ∷ cs) in
    rw split (
      Full-cons size (make_batch number (take size (c ∷ cs))) rest (omega (arith, took))
        (omega (arith, took)) (λ some_left. full rest some_left count)
        (Full-make_batches fuel size (suc number) (drop size (c ∷ cs)) rest h more))
  where
    full :
        (rest : List Batch)
        → rest ≢ []
        → (length (drop size (c ∷ cs)) ≤ size * length rest)
          × (size * length rest < length (drop size (c ∷ cs)) + size)
        → length (take size (c ∷ cs)) ≡ size
    full [] n k = absurd (n refl)
    full (r ∷ rest) n k =
        grind (arith, length-take size (c ∷ cs), length-drop size (c ∷ cs), k.0, k.1)

-- A plan's batches but the last are full, and their number is the total divided by the batch size,
-- rounded up.
pub record IsShaped (n : ℕ) (p : Plan) : Type 0 where
  pub size : ℕ
  pub is_size : p.batch_size ≡ pos size
  pub positive : 0 < size
  pub not_over : size ≤ n
  pub total : p.total ≡ pos n
  pub count : p.batch_count ≡ pos (length p.batches)
  pub enough : n ≤ size * length p.batches
  pub needed : size * length p.batches < n + size
  pub full : Full size p.batches

plan_of-IsShaped :
    (sha256 : Str → List ℕ) (items : List Candidate) (size : ℕ) (p : Plan)
    → 0 < size
    → size ≤ length items
    → plan_of sha256 items (pos size) ≡ some p
    → IsShaped (length items) p
unfolding plan_of
plan_of-IsShaped sha256 items size p h small e =
    let made : make_batches (length items) size 1 items ≡ some p.batches = ground arith in
    let counts = length-make_batches (length items) size 1 items p.batches h made in
    record {
      size = size;
      is_size = ground arith;
      positive = h;
      not_over = small;
      total = ground arith;
      count = ground arith;
      enough = counts.0;
      needed = counts.1;
      full = Full-make_batches (length items) size 1 items p.batches h made;
    }

positive_below :
    (z : ℤ) (n : ℕ) → pos 1 ≤ℤ z → z ≤ℤ pos n → (m : ℕ) × (z ≡ pos m) × (0 < m) × (m ≤ n)
positive_below (pos m) n h k = (m, refl, omega arith, omega arith)
positive_below (negsuc m) n h k = absurd (omega arith)

small_percent : (o : PlanOptions) → refuses o ≡ false → o.batch_percent ≤ℤ pos 100
small_percent o h = ground arith

-- If `BuildPlan` returns a plan for n candidates (n * 100 + 99 within int64), its batch size lies
-- between 1 and n, its total is n, every batch but the last is full and none is empty, and the
-- number of batches is n divided by the size, rounded up.
pub build_plan-IsShaped :
    (sha256 : Str → List ℕ) (cs : List Candidate) (o : PlanOptions) (plan : Plan)
    → length cs * 100 + 99 < 9223372036854775808
    → build_plan sha256 cs o ≡ some (ok plan)
    → IsShaped (length cs) plan
unfolding normalize_candidates order_candidates
build_plan-IsShaped sha256 cs o plan fits h =
    let (items, e, made, guards) = build_plan_parts sha256 cs o plan h in
    let (same, fresh, long) = normalize_from_ok [] cs items e in
    let some_items = build_plan-some sha256 cs o plan h in
    let less = candidate_less sha256 o in
    let bounds =
      calculate_batch_size_bounds (length items) o.batch_size o.batch_percent (omega arith)
        (small_percent o guards) (omega arith) in
    let (size, is_size, positive, small) = positive_below _ (length items) bounds.0 bounds.1 in
    let sorted = length-sort_by less items ∙ long in
    subst (λ n. IsShaped n plan) sorted
      (plan_of-IsShaped sha256 (sort_by less items) size plan positive
        (omega (arith, length-sort_by less items)) (rw is_size at made))
