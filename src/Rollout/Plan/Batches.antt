-- ===== src/Rollout/Plan/Batches.antt =====
-- The loop that cuts the ordered candidates into batches.
use mathlib.Core.List.{map-append}
use edge_rollout_control_ser.Base.{
  ℕ, zero, suc, ◌+◌, ◌*◌, ◌≤◌, ◌<◌, ◌≡◌, refl, sym, ◌∙◌, ap, some, List, [], ◌∷◌, map, length, take,
  drop, length-drop, take-append-drop, arith, Option-cases, inl, inr,
}
use edge_rollout_control_ser.Rollout.Plan.{
  Candidate, Batch, make_batch, make_batches, ids_of, batch_ids,
}

-- With a size of at least 1, as many rounds as there are candidates are enough.
pub make_batches-some :
    (fuel size number : ℕ) (cs : List Candidate)
    → 0 < size
    → length cs ≤ fuel
    → (bs : List Batch) × (make_batches fuel size number cs ≡ some bs)
unfolding make_batches
make_batches-some fuel size number [] h enough = ([], refl)
make_batches-some zero size number (c ∷ cs) h enough = absurd (omega arith)
make_batches-some (suc fuel) size number (c ∷ cs) h enough =
    let (bs, e) =
      make_batches-some fuel size (suc number) (drop size (c ∷ cs)) h
        (omega (arith, length-drop size (c ∷ cs))) in
    (make_batch number (take size (c ∷ cs)) ∷ bs, rw e refl)

-- What one round gives, if the loop ends.
pub make_batches_round :
    (fuel size number : ℕ) (c : Candidate) (cs : List Candidate) (bs : List Batch)
    → make_batches (suc fuel) size number (c ∷ cs) ≡ some bs
    → (rest : List Batch) × (make_batches fuel size (suc number) (drop size (c ∷ cs)) ≡ some rest)
      × (bs ≡ make_batch number (take size (c ∷ cs)) ∷ rest)
unfolding make_batches
make_batches_round fuel size number c cs bs h =
    elim (Option-cases (make_batches fuel size (suc number) (drop size (c ∷ cs)))) [
      | inl e ↦ absurd (ground arith)
      | inr (rest, e) ↦ (rest, e, ground arith)
    ]

-- The batches hold the candidates in their order.
pub batch_ids-make_batches :
    (fuel size number : ℕ) (cs : List Candidate) (bs : List Batch)
    → make_batches fuel size number cs ≡ some bs
    → batch_ids bs ≡ ids_of cs
unfolding batch_ids ids_of make_batches
batch_ids-make_batches fuel size number [] bs h = let e : bs ≡ [] = cc in rw e refl
batch_ids-make_batches zero size number (c ∷ cs) bs h = absurd (cc h)
batch_ids-make_batches (suc fuel) size number (c ∷ cs) bs h =
    let (rest, e, split) = make_batches_round fuel size number c cs bs h in
    rw (split, batch_ids-make_batches fuel size (suc number) (drop size (c ∷ cs)) rest e)
      (sym (map-append (λ (d : Candidate). d.device_id) (take size (c ∷ cs)) (drop size (c ∷ cs)))
        ∙ ap (map (λ (d : Candidate). d.device_id)) (take-append-drop size (c ∷ cs)))

-- Every batch but the last is full, and the last is not empty.
abbrev pub Full : ℕ → List Batch → Type 0
Full size [] = Unit
Full size (b ∷ []) = (0 < length b.candidates) × (length b.candidates ≤ size)
Full size (b ∷ d ∷ bs) = (length b.candidates ≡ size) × Full size (d ∷ bs)

-- There are as many batches as the candidates need.
pub length-make_batches :
    (fuel size number : ℕ) (cs : List Candidate) (bs : List Batch)
    → 0 < size
    → make_batches fuel size number cs ≡ some bs
    → (length cs ≤ size * length bs) × (size * length bs < length cs + size)
unfolding make_batches
length-make_batches fuel size number [] bs pos h = let e : bs ≡ [] = cc in rw e (omega arith)
length-make_batches zero size number (c ∷ cs) bs pos h = absurd (cc h)
length-make_batches (suc fuel) size number (c ∷ cs) bs pos h =
    let (rest, e, split) = make_batches_round fuel size number c cs bs h in
    let more = length-make_batches fuel size (suc number) (drop size (c ∷ cs)) rest pos e in
    rw split (
      omega (arith, more.0, more.1, length-drop size (c ∷ cs)),
      grind (arith, more.0, more.1, length-drop size (c ∷ cs)),
    )
