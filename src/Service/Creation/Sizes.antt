-- ===== src/Service/Creation/Sizes.antt =====
-- The batches in which `CreateRollout` lays the targets out.
use edge_rollout_control_ser.Base.{
  ℕ, suc, ◌+◌, ◌-◌, ◌*◌, ◌/◌, ◌≤◌, ◌<◌, ◌==◌, ◌≡◌, min, List, [], ◌∷◌, ◌++◌, length, count_if,
  subst, Str, Result, ok, err, arith, refl, sym,
}
use edge_rollout_control_ser.Base.Int.{pos, pos_part}
use edge_rollout_control_ser.Base.Floats.{Floats}
use edge_rollout_control_ser.Rollout.{Rollout, Target}
use edge_rollout_control_ser.Store.{Error}
use edge_rollout_control_ser.Device.{Device}
use edge_rollout_control_ser.Service.{Env, World}
use edge_rollout_control_ser.Service.Creation.{CreateRolloutCommand, create_rollout}
use edge_rollout_control_ser.Service.Creation.Created.{
  IsCreated, CreatesOrNot, create_rollout-CreatesOrNot,
}
use edge_rollout_control_ser.Service.Creation.Storing.{Laid}
use Prim.Native.Nat.{max}
use native.Mathlib.Decide.{dec_lt}
use native.Mathlib.Nat.{le-div_iff_mul-le, div-lt_iff_lt-mul}

-- Whether an index lies in a batch, by the bounds of that batch.
in_batch : (i n j : ℕ) → 1 ≤ n → (j * n ≤ i) → (i < suc j * n) → i / n ≡ j
in_batch i n j h low high = omega (
  arith,
  (le-div_iff_mul-le {k = n} {x = j} {y = i} h).1 low,
  (div-lt_iff_lt-mul {k = n} {x = i} {y = suc j} h).1 high,
)

before_batch : (i n j : ℕ) → 1 ≤ n → i < j * n → i / n < j
before_batch i n j h below = (div-lt_iff_lt-mul {k = n} {x = i} {y = j} h).1 below

after_batch : (i n j : ℕ) → 1 ≤ n → suc j * n ≤ i → suc j ≤ i / n
after_batch i n j h above = (le-div_iff_mul-le {k = n} {x = suc j} {y = i} h).1 above

length-Laid :
    (r : Rollout) (i : ℕ) (ds : List Device) (ts : List Target)
    → Laid r i ds ts
    → length ts ≡ length ds
length-Laid r i [] [] h = refl
length-Laid r i (d ∷ ds) (t ∷ ts) h = omega (arith, length-Laid r (suc i) ds ts h.1)
length-Laid r i [] (t ∷ ts) h = absurd h
length-Laid r i (d ∷ ds) [] h = absurd h

suc_times : (j n : ℕ) → suc j * n ≡ j * n + n
suc_times j n = grind arith

-- How many targets are in a batch.
abbrev pub in_batch_count : ℕ → List Target → ℕ
in_batch_count batch ts = count_if (λ (t : Target). t.batch_number == batch) ts

-- From the index i on, batch j + 1 has the indices between j * n and (j + 1) * n.
count-Laid :
    (r : Rollout) (n j i : ℕ) (ds : List Device) (ts : List Target)
    → pos_part r.batch_size ≡ n
    → 1 ≤ n
    → Laid r i ds ts
    → in_batch_count (suc j) ts ≡ min (suc j * n) (i + length ds) - max (j * n) i
count-Laid r n j i [] [] e h l = let wide = suc_times j n in omega arith
count-Laid r n j i (d ∷ ds) (t ∷ ts) e h l =
    let rest = count-Laid r n j (suc i) ds ts e h l.1 in
    let wide = suc_times j n in
    let at : t.batch_number ≡ i / n + 1 = rw (sym e) l.0.4 in
    elim (dec_lt i (j * n)) [
      | yes low ↦ let before = before_batch i n j h low in ground arith
      | no above ↦ elim (dec_lt i (suc j * n)) [
        | yes mid ↦ let within = in_batch i n j h (omega arith) mid in ground arith
        | no high ↦ let after = after_batch i n j h (omega arith) in ground arith
      ]
    ]
count-Laid r n j i [] (t ∷ ts) e h l = absurd l
count-Laid r n j i (d ∷ ds) [] e h l = absurd l

ok-inj : {a b : Rollout} → ◌≡◌ {A = Result Error Rollout} (ok a) (ok b) → a ≡ b
ok-inj h = cc

-- The rows that a creation added, counted by batch.
pub record IsBatched {f : Floats} (w : World f) (r : Rollout) (v : World f) : Type 0 where
  pub rows : List Target
  pub size : ℕ
  pub is_size : r.batch_size ≡ pos size
  pub positive : 1 ≤ size
  pub added : v.store.targets ≡ w.store.targets ++ rows
  pub counted : r.target_count ≡ pos (length rows)
  pub in_batch_j :
      (j : ℕ) → in_batch_count (suc j) rows ≡ min (suc j * size) (length rows) - j * size

-- A rollout that `CreateRollout` returns has its targets in the batches 1, 2, … with as many targets
-- in each as the batch size says, but for the last, which has the rest; no other batch has any.
pub create_rollout-IsBatched :
    (f : Floats) (e : Env) (c : CreateRolloutCommand) (actor : Str) (w : World f) (r : Rollout)
    → (create_rollout f e c actor w).0 ≡ ok r
    → IsBatched w r (create_rollout f e c actor w).1
create_rollout-IsBatched f e c actor w r h =
    batched (create_rollout f e c actor w) (create_rollout-CreatesOrNot f e c actor w) h
  where
    of_created : (q : Rollout) (v : World f) → IsCreated w.store q v.store → IsBatched w q v
    of_created q v k =
        let same = length-Laid q 0 k.devices k.rows k.laid in
        record {
          rows = k.rows;
          size = k.size;
          is_size = k.is_size;
          positive = k.size_bounds.0;
          added = k.targets_after;
          counted = rw (same) k.counted;
          in_batch_j = λ j. omega (
            arith,
            same,
            count-Laid q k.size j 0 k.devices k.rows (rw (k.is_size) refl) k.size_bounds.0 k.laid,
          );
        }

    batched :
        (x : Result Error Rollout × World f)
        → CreatesOrNot w.store x
        → x.0 ≡ ok r
        → IsBatched w r x.1
    batched (ok q, v) k e = subst (λ z. IsBatched w z v) (ok-inj e) (of_created q v k)
    batched (err x, v) k e = absurd (cc e)
