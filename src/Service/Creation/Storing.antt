-- ===== src/Service/Creation/Storing.antt =====
-- The rows that `CreateRollout` makes, and the transaction that stores them.
use edge_rollout_control_ser.Base.{
  ℕ, suc, ◌+◌, ◌/◌, ◌≤◌, ◌≡◌, refl, sym, ◌∙◌, subst, true, false, not, none, List, [], ◌∷◌, ◌++◌,
  map, Str, contains, any_of, All, ok, Bool-cases, Result-cases, inl, inr, arith,
}
use mathlib.Core.List.{append_assoc, append-nil}
use edge_rollout_control_ser.Base.Int.{ℤ, pos, negsuc, pos_part}
use edge_rollout_control_ser.Base.Time.{Time}
use edge_rollout_control_ser.Base.Floats.{Floats}
use edge_rollout_control_ser.Rollout
use edge_rollout_control_ser.Rollout.{Rollout, Target, draft}
use edge_rollout_control_ser.Device.{Device}
use edge_rollout_control_ser.Store.{Store, stored}
use edge_rollout_control_ser.Store.Creation.{insert_rollout, insert_target}
use edge_rollout_control_ser.Service.{Env}
use edge_rollout_control_ser.Service.Creation.{
  has_incompatible, clamp_batch, new_target, make_targets, insert_targets, store_rollout,
}
use edge_rollout_control_ser.Service.Creation.Resolving.{Same}
use edge_rollout_control_ser.Service.Outcomes.{
  Gives, Gives-bind, Gives-pure, Gives-fail, Gives-after, Gives-new_id, Gives-execute,
  Gives-transaction,
}

-- The rows of a rollout's targets: one for each device, in order, from an index.
abbrev pub Laid : (r : Rollout) → ℕ → List Device → List Target → Type 0
Laid r index [] [] = Unit
Laid r index (d ∷ ds) (t ∷ ts) =
    ((t.rollout_id ≡ r.id)
      × (t.device_id ≡ d.id)
      × (t.desired_configuration_id ≡ r.configuration_id)
      × (t.status ≡ Rollout.TargetStatus.pending)
      × (t.batch_number ≡ index / pos_part r.batch_size + 1))
    × Laid r (suc index) ds ts
Laid r index _ _ = ⊥

-- The columns that are pointers to times are empty.
abbrev pub IsNew : Target → Type 0
IsNew t = (t.delivered_at ≡ none) × (t.acknowledged_at ≡ none)

abbrev stored_target : Target → Target
stored_target t = record t {
  delivered_at = stored t.delivered_at;
  acknowledged_at = stored t.acknowledged_at;
}

abbrev pub stored_rollout : Rollout → Rollout
stored_rollout r = record r {
  scheduled_at = stored r.scheduled_at;
  started_at = stored r.started_at;
  completed_at = stored r.completed_at;
}

-- An empty list of models allows all of them.
abbrev pub AllowsModels : List Str → List Device → Type 0
AllowsModels [] ds = Unit
AllowsModels (m ∷ models) ds =
    All (λ (d : Device). contains (m ∷ models) d.hardware_model ≡ true) ds

stored_targets : (ts : List Target) → All IsNew ts → map stored_target ts ≡ ts
stored_targets [] n = refl
stored_targets (t ∷ ts) n =
    let same : stored_target t ≡ t = rw (n.0.0, n.0.1) refl in rw (same, stored_targets ts n.1)

none_incompatible :
    (models : List Str) (ds : List Device)
    → any_of (λ (d : Device). not (contains models d.hardware_model)) ds ≡ false
    → All (λ (d : Device). contains models d.hardware_model ≡ true) ds
none_incompatible models [] h = tt
none_incompatible models (d ∷ ds) h = elim (Bool-cases (contains models d.hardware_model)) [
  | inl e ↦ (e, none_incompatible models ds (rw e at h))
  | inr e ↦ absurd (cc (rw e at h))
]

pub has_incompatible-false :
    (models : List Str) (ds : List Device)
    → has_incompatible models ds ≡ false
    → AllowsModels models ds
unfolding has_incompatible
has_incompatible-false [] ds h = tt
has_incompatible-false (m ∷ models) ds h = none_incompatible (m ∷ models) ds (ground arith)

-- A positive size that is at most the number of devices.
pub clamp_batch_bounds :
    (size : ℤ) (count : ℕ)
    → 1 ≤ count
    → (clamp_batch size count ≡ pos (pos_part (clamp_batch size count)))
      × (1 ≤ pos_part (clamp_batch size count))
      × (pos_part (clamp_batch size count) ≤ count)
unfolding clamp_batch
clamp_batch_bounds (pos n) count h = (ground arith, ground arith, ground arith)
clamp_batch_bounds (negsuc n) count h = (ground arith, ground arith, ground arith)

module _ {f : Floats} (e : Env) where
  -- The tables after the rollout and its first rows.
  abbrev Added : List Rollout → List Target → Store f → Type 0
  Added rs ts s = (s.rollouts ≡ rs) × (s.targets ≡ ts)

  insert_target-Added :
      (rs : List Rollout) (ts : List Target) (t : Target) (s u : Store f)
      → Added rs ts s
      → insert_target f s t ≡ ok u
      → Added rs (ts ++ stored_target t ∷ []) u
  unfolding insert_target
  insert_target-Added rs ts t s u i h = (ground arith, ground arith)

  insert_rollout-Added :
      (r : Rollout) (before u : Store f)
      → insert_rollout f before r ≡ ok u
      → Added (before.rollouts ++ stored_rollout r ∷ []) before.targets u
  unfolding insert_rollout
  insert_rollout-Added r before u h = (ground arith, ground arith)

  Gives-insert_targets :
      (rs : List Rollout) (old ts : List Target)
      → Gives
          (Added rs old)
          (insert_targets f e ts)
          (λ u. Added rs (old ++ map stored_target ts))
          (λ s. Unit {0})
  unfolding insert_targets
  Gives-insert_targets rs old [] = Gives-pure _ _ _ tt (λ s i. (i.0, i.1 ∙ sym (append-nil old)))
  Gives-insert_targets rs old (t ∷ ts) =
      Gives-bind _ _ _ _ _ _
        (Gives-execute e _ (Added rs (old ++ stored_target t ∷ [])) _ _ (λ s i. tt)
          (λ s u i h. insert_target-Added rs old t s u i h))
        λ u.
          Gives-after _ _ _ _ _
            (λ v s i. (i.0, i.1 ∙ append_assoc old (stored_target t ∷ []) (map stored_target ts)))
            (Gives-insert_targets rs (old ++ stored_target t ∷ []) ts)

  -- The rollout and its rows are added, or the store stays as it was.
  abbrev pub AddedTo : Store f → Rollout → List Target → Store f → Type 0
  AddedTo before r ts = Added (before.rollouts ++ stored_rollout r ∷ []) (before.targets ++ ts)

  pub Gives-store_rollout :
      (before : Store f) (r : Rollout) (ts : List Target)
      → All IsNew ts
      → Gives (Same e before) (store_rollout f e r ts) (λ u. AddedTo before r ts) (Same e before)
  unfolding store_rollout
  Gives-store_rollout before r ts new = elim (Result-cases (Rollout.validate r)) [
    | inr (x, bad) ↦ rw (bad, store_rollout) (Gives-fail _ _ _ _ (λ s i. i))
    | inl (u, good) ↦
        rw (good, store_rollout)
          (Gives-transaction e _ _ _ _ (λ s i. i)
            (Gives-bind _ _ _ _ _ _
              (Gives-execute e (Same e before)
                (Added (before.rollouts ++ stored_rollout r ∷ []) before.targets) (λ s. Unit {0}) _
                (λ s i. tt)
                (λ s v i h.
                  insert_rollout-Added r before v (subst (λ z. insert_rollout f z r ≡ ok v) i h)))
              λ v.
                subst
                  (λ z.
                    Gives (Added (before.rollouts ++ stored_rollout r ∷ []) before.targets)
                      (insert_targets f e ts)
                      (λ u. Added (before.rollouts ++ stored_rollout r ∷ []) (before.targets ++ z))
                      (λ s. Unit {0}))
                  (stored_targets ts new)
                  (Gives-insert_targets (before.rollouts ++ stored_rollout r ∷ []) before.targets
                    ts)))
  ]

  pub Gives-make_targets :
      (before : Store f) (r : Rollout) (at : Time) (index : ℕ) (ds : List Device)
      → Gives
          (Same e before)
          (make_targets f e r at index ds)
          (λ ts s. Same e before s × Laid r index ds ts × All IsNew ts)
          (Same e before)
  unfolding make_targets
  Gives-make_targets before r at index [] = Gives-pure _ _ _ [] (λ s i. (i, tt, tt))
  Gives-make_targets before r at index (d ∷ ds) = Gives-bind _ _ _ _ _ _ (Gives-new_id e _ _) λ id.
      Gives-bind _ _ _ _ _ _ (Gives-make_targets before r at (suc index) ds) λ ts.
        Gives-pure _ _ _ (new_target f e r at d index id ∷ ts)
          λ s i. (i.0, ((refl, refl, refl, refl, refl), i.1), ((refl, refl), i.2))
