-- ===== src/Rollout/Progress/Groups.antt =====
-- `GroupTargetsByBatch` against a plain description: the targets of one batch number, sorted.
use mathlib.Core.List.{append-nil, append_assoc}
use edge_rollout_control_ser.Base.{
  ℕ, ◌≡◌, refl, sym, ◌∙◌, ap, Bool, List, [], ◌∷◌, ◌++◌, map, ◌==◌, if◌then◌else◌, select, sort_by,
  arith, Bool-cases, inl, inr,
}
use edge_rollout_control_ser.Rollout.{Target}
use edge_rollout_control_ser.Rollout.Progress.{
  add_to_group, group_from, by_device, group_targets_by_batch,
}

-- The entry of a batch number; a key that is missing has no targets.
abbrev pub group_at : ℕ → List (ℕ × List Target) → List Target
group_at n [] = []
group_at n ((m, ts) ∷ groups) = let rest = group_at n groups in if m == n then ts else rest

abbrev pub of_batch : ℕ → Target → Bool
of_batch n t = t.batch_number == n

group_at-add_to_group :
    (n : ℕ) (t : Target) (groups : List (ℕ × List Target))
    → group_at n (add_to_group t groups)
      ≡ (if of_batch n t then group_at n groups ++ t ∷ [] else group_at n groups)
unfolding add_to_group
group_at-add_to_group n t [] = ground arith
group_at-add_to_group n t ((m, ts) ∷ groups) = ground (arith, group_at-add_to_group n t groups)

group_at-group_from :
    (n : ℕ) (ts : List Target) (groups : List (ℕ × List Target))
    → group_at n (group_from groups ts) ≡ group_at n groups ++ select (of_batch n) ts
unfolding group_from
group_at-group_from n [] groups = sym (append-nil (group_at n groups))
group_at-group_from n (t ∷ ts) groups =
    group_at-group_from n ts (add_to_group t groups) ∙ elim (Bool-cases (of_batch n t)) [
      | inl e ↦
          rw (group_at-add_to_group, e)
            (append_assoc (group_at n groups) (t ∷ []) (select (of_batch n) ts))
      | inr e ↦ rw (group_at-add_to_group, e) refl
    ]

group_at-map :
    (n : ℕ) (groups : List (ℕ × List Target))
    → group_at n (map (λ g. (g.0, sort_by by_device g.1)) groups)
      ≡ sort_by by_device (group_at n groups)
unfolding sort_by
group_at-map n [] = refl
group_at-map n ((m, ts) ∷ groups) = ground (arith, group_at-map n groups)

-- In the map that `GroupTargetsByBatch` returns, every batch number has exactly the targets of
-- that batch, sorted by device id; a number that no target has is no key with targets.
pub group_targets_by_batch-at :
    (n : ℕ) (ts : List Target)
    → group_at n (group_targets_by_batch ts) ≡ sort_by by_device (select (of_batch n) ts)
unfolding group_targets_by_batch
group_targets_by_batch-at n ts =
    group_at-map n (group_from [] ts) ∙ ap (sort_by by_device) (group_at-group_from n ts [])
