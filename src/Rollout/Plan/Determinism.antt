-- ===== src/Rollout/Plan/Determinism.antt =====
-- `BuildPlan` and the order of the candidates that it is given and that it returns.
use mathlib.Core.List.{Perm, Nodup, Nodup-cons, Mem, mem-cons, not-mem-nil, mem-map_of_mem}
use mathlib.Core.Logic.Or
use mathlib.Core.List.Perm
use edge_rollout_control_ser.Base.{
  ℕ, zero, suc, ◌<◌, ◌≡◌, refl, sym, ◌∙◌, ap, subst, Bool, true, false, ◌||◌, some, List, [], ◌∷◌,
  ◌++◌, map, Str, is_empty, length, drop, take-append-drop, All, All-perm, length-perm, bool_prop,
  Sorted, Sorted-map, Sorted-eq_of_perm, sort_by, sort_by-perm, sort_by-Sorted, Before, Fresh,
  Fresh→Nodup, Nodup→Fresh, arith, ok, Result-cases, inl, inr,
}
use edge_rollout_control_ser.Base.Int.{ℤ, pos, pos_part, ltb_ℤ}
use edge_rollout_control_ser.Rollout.Plan.{
  Candidate, Batch, Plan, PlanOptions, make_batches, normalize_from, normalize_candidates,
  with_labels, ids_of, candidate_less, order_candidates, plan_of, calculate_batch_size, build_plan,
}
use edge_rollout_control_ser.Rollout.Plan.Batches.{make_batches_round}
use edge_rollout_control_ser.Rollout.Plan.Validity.{normalize_from_round}
use edge_rollout_control_ser.Rollout.Plan.Order.{candidate_less-IsWeakOrder, candidate_less_tie}

-- The candidates of a plan, batch after batch.
abbrev pub batch_candidates : List Batch → List Candidate
batch_candidates [] = []
batch_candidates (b ∷ bs) = b.candidates ++ batch_candidates bs

batch_candidates-make_batches :
    (fuel size number : ℕ) (cs : List Candidate) (bs : List Batch)
    → make_batches fuel size number cs ≡ some bs
    → batch_candidates bs ≡ cs
unfolding make_batches
batch_candidates-make_batches fuel size number [] bs h = let e : bs ≡ [] = cc in rw e refl
batch_candidates-make_batches zero size number (c ∷ cs) bs h = absurd (cc h)
batch_candidates-make_batches (suc fuel) size number (c ∷ cs) bs h =
    let (rest, e, split) = make_batches_round fuel size number c cs bs h in
    rw (split, batch_candidates-make_batches fuel size (suc number) (drop size (c ∷ cs)) rest e)
      (take-append-drop size (c ∷ cs))

batch_candidates-plan_of :
    (sha256 : Str → List ℕ) (items : List Candidate) (size : ℤ) (plan : Plan)
    → plan_of sha256 items size ≡ some plan
    → batch_candidates plan.batches ≡ items
unfolding plan_of
batch_candidates-plan_of sha256 items size plan h =
    batch_candidates-make_batches (length items) (pos_part size) 1 items plan.batches (ground arith)

-- The tests that `BuildPlan` makes before it looks at the candidates.
abbrev pub refuses : PlanOptions → Bool
refuses o =
    is_empty o.rollout_id || (ltb_ℤ o.batch_percent (pos 0) || ltb_ℤ (pos 100) o.batch_percent)

-- What a returned plan is made of.
pub build_plan_parts :
    (sha256 : Str → List ℕ) (cs : List Candidate) (o : PlanOptions) (plan : Plan)
    → build_plan sha256 cs o ≡ some (ok plan)
    → (items : List Candidate) × (normalize_candidates cs ≡ ok items)
      × (plan_of sha256
            (order_candidates sha256 items o)
            (calculate_batch_size (pos (length items)) o.batch_size o.batch_percent)
          ≡ some plan)
      × (refuses o ≡ false)
unfolding build_plan
build_plan_parts sha256 cs o plan h = elim (Result-cases (normalize_candidates cs)) [
  | inl (items, e) ↦ (items, e, ground arith, ground arith)
  | inr (x, e) ↦ absurd (ground arith)
]

build_plan_of_parts :
    (sha256 : Str → List ℕ) (cs items : List Candidate) (o : PlanOptions) (plan : Plan)
    → 0 < length cs
    → normalize_candidates cs ≡ ok items
    → plan_of sha256
        (order_candidates sha256 items o)
        (calculate_batch_size (pos (length items)) o.batch_size o.batch_percent)
      ≡ some plan
    → refuses o ≡ false
    → build_plan sha256 cs o ≡ some (ok plan)
unfolding build_plan
build_plan_of_parts sha256 cs items o plan some_items e made h = ground arith

pub build_plan-some :
    (sha256 : Str → List ℕ) (cs : List Candidate) (o : PlanOptions) (plan : Plan)
    → build_plan sha256 cs o ≡ some (ok plan)
    → 0 < length cs
unfolding build_plan
build_plan-some sha256 cs o plan h = ground arith

critical_first :
    (sha256 : Str → List ℕ) (o : PlanOptions)
    → o.put_critical_first ≡ true
    → (a b : Candidate) → candidate_less sha256 o b a ≡ false
    → b.critical ≡ true
    → a.critical ≡ true
unfolding candidate_less
critical_first sha256 o first a b h c = ground arith

-- When `normalizeCandidates` accepts, and what it returns then.
abbrev Named : Candidate → Type 0
Named c = is_empty c.device_id ≡ false

normalized :
    (seen : List Str) (cs items : List Candidate)
    → normalize_from seen cs ≡ ok items
    → (items ≡ map with_labels cs) × Fresh seen (ids_of cs) × All Named cs
unfolding normalize_from ids_of
normalized seen [] items h = let e : items ≡ [] = cc in rw e (refl, tt, tt)
normalized seen (c ∷ cs) items h =
    let (rest, more, new, named, split) = normalize_from_round seen c cs items h in
    let (same, fresh, all) = normalized (c.device_id ∷ seen) cs rest more in
    rw split (ap (◌∷◌ (with_labels c)) same, (new, fresh), (named, all))

normalizes :
    (seen : List Str) (cs : List Candidate)
    → Fresh seen (ids_of cs)
    → All Named cs
    → normalize_from seen cs ≡ ok (map with_labels cs)
unfolding normalize_from ids_of
normalizes seen [] f n = refl
normalizes seen (c ∷ cs) f n = rw (n.0, f.0, normalizes (c.device_id ∷ seen) cs f.1 n.1) refl

pub normalizes_perm :
    (cs ds items : List Candidate)
    → Perm cs ds
    → normalize_candidates cs ≡ ok items
    → (normalize_candidates ds ≡ ok (map with_labels ds))
      × (items ≡ map with_labels cs)
      × Nodup (ids_of cs)
unfolding normalize_candidates ids_of
normalizes_perm cs ds items p e =
    let (same, fresh, named) = normalized [] cs items e in
    let distinct = Fresh→Nodup [] (map (λ (c : Candidate). c.device_id) cs) fresh in
    (
      normalizes [] ds
          (Nodup→Fresh [] _ (Perm.nodup (Perm.map (λ (c : Candidate). c.device_id) p) distinct)
            (λ a m n. not-mem-nil n))
          (All-perm Named (λ a. bool_prop _ _) cs ds p named),
      same,
      distinct,
    )

ids-with_labels : (cs : List Candidate) → ids_of (map with_labels cs) ≡ ids_of cs
unfolding ids_of
ids-with_labels [] = refl
ids-with_labels (c ∷ cs) = ap (◌∷◌ c.device_id) (ids-with_labels cs)

Candidate-set : IsSet Candidate
Candidate-set = hlevel

mem-ids : (c : Candidate) (cs : List Candidate) → Mem c cs → Mem c.device_id (ids_of cs)
unfolding ids_of
mem-ids c cs m = mem-map_of_mem (λ (d : Candidate). d.device_id) m

-- Where no id occurs twice, an id is that of one candidate.
same_id :
    (cs : List Candidate) (a b : Candidate)
    → Nodup (ids_of cs)
    → Mem a cs
    → Mem b cs
    → a.device_id ≡ b.device_id
    → a ≡ b
unfolding ids_of
same_id [] a b n ma mb e = absurd (not-mem-nil ma)
same_id (c ∷ cs) a b n ma mb e =
    let (new, rest) = Nodup-cons.0 n in
    Or.elim (Candidate-set a b) (mem-cons.0 ma)
      (λ ea.
        Or.elim (Candidate-set a b) (mem-cons.0 mb) (λ eb. ea ∙ sym eb)
          (λ rb. absurd (
            new (
              subst (λ i. Mem i (map (λ (d : Candidate). d.device_id) cs))
                (sym e ∙ ap (λ (d : Candidate). d.device_id) ea) (mem-ids b cs rb)))))
      (λ ra.
        Or.elim (Candidate-set a b) (mem-cons.0 mb)
          (λ eb. absurd (
            new (
              subst (λ i. Mem i (map (λ (d : Candidate). d.device_id) cs))
                (e ∙ ap (λ (d : Candidate). d.device_id) eb) (mem-ids a cs ra))))
          (λ rb. same_id cs a b rest ra rb e))

ordered_alike :
    (sha256 : Str → List ℕ) (o : PlanOptions) (xs ys : List Candidate)
    → Nodup (ids_of xs)
    → Perm xs ys
    → order_candidates sha256 xs o ≡ order_candidates sha256 ys o
unfolding order_candidates
ordered_alike sha256 o xs ys n p =
    let less = candidate_less sha256 o in
    let weak = candidate_less-IsWeakOrder sha256 o in
    let in_xs =
      λ (c : Candidate) (m : Mem c (sort_by less xs)). (Perm.mem_iff (sort_by-perm less xs)).0 m in
    Sorted-eq_of_perm less weak (sort_by less xs) (sort_by less ys)
      (λ a b ma mb h k.
        same_id xs a b n (in_xs a ma) (in_xs b mb) (candidate_less_tie sha256 o a b h k))
      (sort_by-Sorted less weak xs) (sort_by-Sorted less weak ys)
      (Perm.trans (sort_by-perm less xs) (Perm.trans p (Perm.symm (sort_by-perm less ys))))

-- If `BuildPlan` returns a plan for some candidates, it returns the same plan for the same
-- candidates in any other order.
pub build_plan-perm :
    (sha256 : Str → List ℕ) (cs ds : List Candidate) (o : PlanOptions) (plan : Plan)
    → Perm cs ds
    → build_plan sha256 cs o ≡ some (ok plan)
    → build_plan sha256 ds o ≡ some (ok plan)
build_plan-perm sha256 cs ds o plan p h =
    let (items, e, made, guards) = build_plan_parts sha256 cs o plan h in
    let (again, is_map, distinct) = normalizes_perm cs ds items p e in
    let q : Perm items (map with_labels ds) = rw is_map (Perm.map with_labels p) in
    let n : Nodup (ids_of items) = rw (is_map, ids-with_labels cs) distinct in
    build_plan_of_parts sha256 ds (map with_labels ds) o plan
      (omega (arith, length-perm p, build_plan-some sha256 cs o plan h)) again
      (rw (← ordered_alike sha256 o items (map with_labels ds) n q, ← length-perm q) made) guards

-- With `PutCriticalFirst`, no critical device stands behind one that is not, through all batches of
-- a returned plan.
pub build_plan_critical_first :
    (sha256 : Str → List ℕ) (cs : List Candidate) (o : PlanOptions) (plan : Plan)
    → o.put_critical_first ≡ true
    → build_plan sha256 cs o ≡ some (ok plan)
    → Sorted
        (λ (a : Candidate) (b : Candidate). b.critical ≡ true → a.critical ≡ true)
        (batch_candidates plan.batches)
unfolding order_candidates
build_plan_critical_first sha256 cs o plan first h =
    let (items, e, made, guards) = build_plan_parts sha256 cs o plan h in
    let less = candidate_less sha256 o in
    rw (batch_candidates-plan_of sha256 (sort_by less items) _ plan made) (
      Sorted-map (Before less) _ (critical_first sha256 o first) (sort_by less items)
        (sort_by-Sorted less (candidate_less-IsWeakOrder sha256 o) items))
