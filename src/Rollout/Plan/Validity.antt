-- ===== src/Rollout/Plan/Validity.antt =====
-- `BuildPlan` against `Validate` and against the candidates given.
use mathlib.Core.List.{Perm, not-mem-nil}
use mathlib.Core.List.Perm
use native.Mathlib.Nat.{add-zero, suc-add, add-suc}
use edge_rollout_control_ser.Base.{
  ℕ, zero, suc, ◌+◌, ◌*◌, ◌<◌, ◌≡◌, refl, sym, subst, ap, Bool, true, false, Option, none, some,
  List, [], ◌∷◌, ◌++◌, Str, length, take, drop, length-take, length-drop, take-append-drop, arith,
  Fresh, Fresh→Nodup, Nodup→Fresh, contains, Result, ok, err, Result-cases, inl, inr, sort_by,
  sort_by-perm, length-sort_by, is_empty,
}
use edge_rollout_control_ser.Base.Int.{ℤ, pos, negsuc, ◌≤ℤ◌}
use edge_rollout_control_ser.Rollout.Plan.{
  Candidate, Batch, Plan, PlanOptions, PlanError, make_batch, make_batches, ids_of,
  check_candidates, fits, check_batches, validate, normalize_from, with_labels,
  normalize_candidates, candidate_less, order_candidates, calculate_batch_size, plan_of, build_plan,
  candidate_ids,
}
use edge_rollout_control_ser.Rollout.Plan.Sizes.{calculate_batch_size_bounds}
use edge_rollout_control_ser.Rollout.Plan.Batches.{
  make_batches-some, make_batches_round, batch_ids-make_batches,
}

-- The keys that the loop has seen after a batch.
abbrev seen_after : List Str → List Candidate → List Str
seen_after seen [] = seen
seen_after seen (c ∷ cs) = seen_after (c.device_id ∷ seen) cs

check_candidates_ok :
    (seen : List Str) (count : ℕ) (cs : List Candidate)
    → Fresh seen (ids_of cs)
    → check_candidates seen count cs ≡ ok (seen_after seen cs, count + length cs)
unfolding check_candidates ids_of
check_candidates_ok seen count [] f = rw add-zero refl
check_candidates_ok seen count (c ∷ cs) f =
    rw (f.0, check_candidates_ok (c.device_id ∷ seen) (suc count) cs f.1, suc-add, add-suc) refl

Fresh-append :
    (seen : List Str) (cs ds : List Candidate)
    → Fresh seen (ids_of (cs ++ ds))
    → Fresh seen (ids_of cs) × Fresh (seen_after seen cs) (ids_of ds)
unfolding ids_of
Fresh-append seen [] ds f = (tt, f)
Fresh-append seen (c ∷ cs) ds f =
    let (here, there) = Fresh-append (c.device_id ∷ seen) cs ds f.1 in ((f.0, here), there)

-- A batch that the loop cuts has an admissible size.
fits-take :
    (size number : ℕ) (c : Candidate) (cs : List Candidate)
    → 0 < size
    → fits (pos size) (make_batch number (take size (c ∷ cs))) ≡ true
fits-take size number c cs h = ground (arith, length-take size (c ∷ cs))

check_batches_ok :
    (fuel size index : ℕ) (seen : List Str) (count : ℕ) (cs : List Candidate) (bs : List Batch)
    → 0 < size
    → Fresh seen (ids_of cs)
    → make_batches fuel size (suc index) cs ≡ some bs
    → (after : List Str) × (check_batches (pos size) index seen count bs
        ≡ ok (after, count + length cs))
unfolding check_batches make_batches
check_batches_ok fuel size index seen count [] bs h f e =
    let none_left : bs ≡ [] = cc in rw (none_left, add-zero) (seen, refl)
check_batches_ok zero size index seen count (c ∷ cs) bs h f e = absurd (cc e)
check_batches_ok (suc fuel) size index seen count (c ∷ cs) bs h f e =
    let (rest, more, split) = make_batches_round fuel size (suc index) c cs bs e in
    let cut = take-append-drop size (c ∷ cs) in
    let (here, there) =
      Fresh-append seen (take size (c ∷ cs)) (drop size (c ∷ cs))
        (subst (λ l. Fresh seen (ids_of l)) (sym cut) f) in
    let (after, tail) =
      check_batches_ok fuel size (suc index) (seen_after seen (take size (c ∷ cs)))
        (count + length (take size (c ∷ cs))) (drop size (c ∷ cs)) rest h there more in
    let total : count + length (take size (c ∷ cs)) + length (drop size (c ∷ cs))
        ≡ count + length (c ∷ cs) =
      omega (arith, length-take size (c ∷ cs), length-drop size (c ∷ cs)) in
    (
      after,
      rw split (
          ground (
            arith,
            fits-take size (suc index) c cs h,
            check_candidates_ok seen count (take size (c ∷ cs)) here,
            tail,
            total,
          )),
    )

-- The plan of distinct items and a positive size.
plan_of_ok :
    (sha256 : Str → List ℕ) (items : List Candidate) (size : ℕ)
    → 0 < length items
    → 0 < size
    → Fresh [] (ids_of items)
    → (plan : Plan) × (plan_of sha256 items (pos size) ≡ some plan)
      × (validate plan ≡ ok tt)
      × (candidate_ids plan ≡ ids_of items)
unfolding plan_of validate candidate_ids
plan_of_ok sha256 items size some_items positive fresh =
    let (bs, e) = make_batches-some (length items) size 1 items positive (omega arith) in
    let (after, checked) = check_batches_ok (length items) size 0 [] 0 items bs positive fresh e in
    (
      record {
        batches = bs;
        total = pos (length items);
        batch_size = pos size;
        batch_count = pos (length bs);
      },
      rw (e, plan_of) refl,
      ground (arith, checked),
      batch_ids-make_batches (length items) size 1 items bs e,
    )

pub normalize_from_round :
    (seen : List Str) (c : Candidate) (cs items : List Candidate)
    → normalize_from seen (c ∷ cs) ≡ ok items
    → (rest : List Candidate) × (normalize_from (c.device_id ∷ seen) cs ≡ ok rest)
      × (contains seen c.device_id ≡ false)
      × (is_empty c.device_id ≡ false)
      × (items ≡ with_labels c ∷ rest)
unfolding normalize_from
normalize_from_round seen c cs items h =
    elim (Result-cases (normalize_from (c.device_id ∷ seen) cs)) [
      | inl (rest, e) ↦ (rest, e, ground arith, ground arith, ground arith)
      | inr (x, e) ↦ absurd (ground arith)
    ]

pub normalize_from_ok :
    (seen : List Str) (cs items : List Candidate)
    → normalize_from seen cs ≡ ok items
    → (ids_of items ≡ ids_of cs) × Fresh seen (ids_of items) × (length items ≡ length cs)
unfolding normalize_from ids_of
normalize_from_ok seen [] items h = let e : items ≡ [] = cc in rw e (refl, tt, refl)
normalize_from_ok seen (c ∷ cs) items h =
    let (rest, more, new, named, split) = normalize_from_round seen c cs items h in
    let (same, fresh, long) = normalize_from_ok (c.device_id ∷ seen) cs rest more in
    rw split (ap (◌∷◌ c.device_id) same, (new, fresh), ap suc long)

-- What `BuildPlan` may give for some candidates: an error, or a valid plan of exactly them.
abbrev pub IsPlanned : List Candidate → Option (Result PlanError Plan) → Type 0
IsPlanned cs none = ⊥
IsPlanned cs (some (err e)) = Unit {0}
IsPlanned cs (some (ok plan)) = (validate plan ≡ ok tt) × Perm (candidate_ids plan) (ids_of cs)

-- The items that the plan is made of, sorted by any comparison.
sorted_ids-perm :
    (less : Candidate → Candidate → Bool) (items : List Candidate)
    → Perm (ids_of (sort_by less items)) (ids_of items)
unfolding ids_of
sorted_ids-perm less items = Perm.map (λ c. c.device_id) (sort_by-perm less items)

sorted-Fresh :
    (less : Candidate → Candidate → Bool) (items : List Candidate)
    → Fresh [] (ids_of items)
    → Fresh [] (ids_of (sort_by less items))
sorted-Fresh less items f =
    Nodup→Fresh [] _ (Perm.nodup (Perm.symm (sorted_ids-perm less items)) (Fresh→Nodup [] _ f))
      (λ a m n. not-mem-nil n)

positive_size : (z : ℤ) → pos 1 ≤ℤ z → (m : ℕ) × (z ≡ pos m) × (0 < m)
positive_size (pos m) h = (m, refl, omega arith)
positive_size (negsuc m) h = absurd (omega arith)

-- The last part of `BuildPlan`: normalised items in some order.
planned :
    (sha256 : Str → List ℕ) (cs items : List Candidate) (o : PlanOptions)
    → normalize_candidates cs ≡ ok items
    → 0 < length cs
    → o.batch_percent ≤ℤ pos 100
    → length cs * 100 + 99 < 9223372036854775808
    → (plan : Plan) × (plan_of sha256
          (order_candidates sha256 items o)
          (calculate_batch_size (pos (length items)) o.batch_size o.batch_percent)
        ≡ some plan)
      × (validate plan ≡ ok tt)
      × Perm (candidate_ids plan) (ids_of cs)
unfolding normalize_candidates order_candidates
planned sha256 cs items o normal some_items small fits =
    let (same, fresh, long) = normalize_from_ok [] cs items normal in
    let less = candidate_less sha256 o in
    let bounds =
      calculate_batch_size_bounds (length items) o.batch_size o.batch_percent (omega arith) small
        (omega arith) in
    let (size, is_size, positive) = positive_size _ bounds.0 in
    let (plan, made, valid, ids) =
      plan_of_ok sha256 (sort_by less items) size (omega (arith, length-sort_by less items))
        positive (sorted-Fresh less items fresh) in
    (plan, rw is_size made, valid, rw (ids, ← same) (sorted_ids-perm less items))

-- Whatever candidates (fewer than about 9 * 10^16) and options it is given, `BuildPlan` returns,
-- and if it returns a plan, that plan passes `Validate` and its candidate ids are a permutation of
-- the ids it was given.
pub build_plan-IsPlanned :
    (sha256 : Str → List ℕ) (cs : List Candidate) (o : PlanOptions)
    → length cs * 100 + 99 < 9223372036854775808
    → IsPlanned cs (build_plan sha256 cs o)
unfolding build_plan
build_plan-IsPlanned sha256 cs o fits = elim (Result-cases (normalize_candidates cs)) [
  | inl (items, e) ↦ ground (arith, planned sha256 cs items o e)
  | inr (x, e) ↦ ground arith
]
