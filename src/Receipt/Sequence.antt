-- ===== src/Receipt/Sequence.antt =====
-- `Compare` and `ValidateSequence` of receipts.
use mathlib.Core.List.{Nodup}
use mathlib.Core.List.Perm
use edge_rollout_control_ser.Base.{
  ℕ, ◌≤◌, ◌≡◌, false, some, List, [], ◌∷◌, map, Str, str_eq→eq, str_eq_iff, contains, Fresh,
  Fresh→Nodup, sort_by, sort_by-perm, arith, ok, Result-cases, inl, inr,
}
use edge_rollout_control_ser.Receipt.{
  Receipt, accept, compare, check_sequence, check_previous, target_key, latest_at, set_latest,
  sort_by_received_at, received_less, validate_sequence,
}

check_sequence_round :
    (seen : List Str) (latest : List (Str × Receipt)) (r : Receipt) (rs : List Receipt)
    → check_sequence seen latest (r ∷ rs) ≡ ok tt
    → (contains seen r.idempotency_key ≡ false)
      × (check_previous (latest_at (target_key r) latest) r ≡ ok tt)
      × (check_sequence (r.idempotency_key ∷ seen) (set_latest (target_key r) r latest) rs ≡ ok tt)
unfolding check_sequence
check_sequence_round seen latest r rs h =
    let new : contains seen r.idempotency_key ≡ false = ground arith in
    elim (Result-cases (check_previous (latest_at (target_key r) latest) r)) [
      | inl (u, e) ↦ (new, e, ground arith)
      | inr (x, e) ↦ absurd (ground arith)
    ]

check_sequence-Fresh :
    (seen : List Str) (latest : List (Str × Receipt)) (rs : List Receipt)
    → check_sequence seen latest rs ≡ ok tt
    → Fresh seen (map (λ r. r.idempotency_key) rs)
unfolding check_sequence
check_sequence-Fresh seen latest [] h = tt
check_sequence-Fresh seen latest (r ∷ rs) h =
    let (new, fine, rest) = check_sequence_round seen latest r rs h in
    (
      new,
      check_sequence-Fresh (r.idempotency_key ∷ seen) (set_latest (target_key r) r latest) rs rest,
    )

-- A receipt that `Compare` accepts after another one is for the same rollout, device and
-- configuration, has another idempotency key or none, was not received earlier, and, where both
-- have a device time, does not have an earlier one.
pub compare_accept :
    (old new : Receipt)
    → (compare old new).0 ≡ accept
    → (old.rollout_id ≡ new.rollout_id)
      × (old.device_id ≡ new.device_id)
      × (old.configuration_id ≡ new.configuration_id)
      × ((old.idempotency_key ≡ new.idempotency_key) → new.idempotency_key ≡ [])
      × (old.received_at ≤ new.received_at)
      × ((s t : ℕ) → old.device_timestamp ≡ some s → new.device_timestamp ≡ some t → s ≤ t)
unfolding compare
compare_accept old new h = (
  str_eq→eq old.rollout_id new.rollout_id (ground arith),
  str_eq→eq old.device_id new.device_id (ground arith),
  str_eq→eq old.configuration_id new.configuration_id (ground arith),
  λ e. ground (arith, str_eq_iff old.idempotency_key new.idempotency_key),
  ground arith,
  λ s t p q. ground arith,
)

-- Receipts that `ValidateSequence` accepts have idempotency keys that all differ.
pub validate_sequence-Nodup :
    (rs : List Receipt) → validate_sequence rs ≡ ok tt → Nodup (map (λ r. r.idempotency_key) rs)
unfolding validate_sequence sort_by_received_at
validate_sequence-Nodup rs h =
    Perm.nodup
      (Perm.map (λ (r : Receipt). r.idempotency_key) (sort_by-perm (received_less false) rs))
      (Fresh→Nodup [] _ (check_sequence-Fresh [] [] (sort_by (received_less false) rs) h))
