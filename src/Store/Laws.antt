-- ===== src/Store/Laws.antt =====
-- Reading after writing a rollout, and the number of rows on a page of targets.
use edge_rollout_control_ser.Base.{
  suc, ◌≤◌, ◌≡◌, refl, ap, true, false, if◌then◌else◌, str_eq→eq, err, Option, none, some, List, [],
  ◌∷◌, map, Str, str_eq, length, drop, length-take, Result, ok, Bool-cases, Option-cases, inl, inr,
  arith,
}
use edge_rollout_control_ser.Base.Int.{ℤ, pos, pos_part, ◌≤ℤ◌}
use edge_rollout_control_ser.Base.Time.{Time}
use edge_rollout_control_ser.Base.Floats.{Floats}
use edge_rollout_control_ser.Rollout.{Rollout, Target}
use edge_rollout_control_ser.Store.{Error, Store, lim, page, row, update_rows, stored}
use edge_rollout_control_ser.Store.Rows.{
  has_row, read_one, get_rollout, update_rollout, read_rollout, write_rollout,
}
use edge_rollout_control_ser.Store.Targets.{TargetFilter, list_targets, read_target}

length-map : {A B : Type 0} (g : A → B) (xs : List A) → length (map g xs) ≡ length xs
length-map g [] = refl
length-map g (x ∷ xs) = ap suc (length-map g xs)

length-page :
    {A : Type 0} (limit offset : ℤ) (xs : List A) → length (page limit offset xs) ≤ lim limit
length-page limit offset xs = omega (arith, length-take (lim limit) (drop (pos_part offset) xs))

lim_cap : (limit : ℤ) → (lim limit ≤ 1000) × (pos 1001 ≤ℤ limit → lim limit ≡ 100)
unfolding lim
lim_cap limit = (ground arith, λ h. ground arith)

page_cap :
    (limit offset : ℤ) (xs : List Target)
    → (length (map read_target (page limit offset xs)) ≤ 1000)
      × (pos 1001 ≤ℤ limit → length (map read_target (page limit offset xs)) ≤ 100)
page_cap limit offset xs =
    let rows = length-map read_target (page limit offset xs) in
    let few = length-page limit offset xs in
    let (most, cap) = lim_cap limit in
    (omega (arith, rows, few, most), λ h. omega (arith, rows, few, cap h))

-- `ListTargets` returns at most a thousand targets, and at most a hundred where a limit of more than
-- a thousand is asked for.
pub list_targets_cap :
    (f : Floats) (s : Store f) (id : Str) (q : TargetFilter)
    → (length (list_targets f s id q).0 ≤ 1000)
      × (pos 1001 ≤ℤ q.limit → length (list_targets f s id q).0 ≤ 100)
unfolding list_targets
list_targets_cap f s id q = page_cap q.limit q.offset _

pub row-update_rows :
    {A : Type 0} (key : A → Str) (set : A → A) (id : Str) (rows : List A) (a : A)
    → ((b : A) → key (set b) ≡ key b)
    → row key id rows ≡ some a
    → row key id (update_rows key set id rows) ≡ some (set a)
unfolding row update_rows
row-update_rows key set id [] a same h = absurd cc
row-update_rows key set id (b ∷ rows) a same h = elim (Bool-cases (str_eq (key b) id)) [
  | inl here ↦
      rw (here, same b, here)
        (ap (λ o. elim o [ none ↦ none | some y ↦ some (set y) ]) (rw here at h))
  | inr other ↦ rw (other, other) (row-update_rows key set id rows a same (rw other at h))
]

ok-inj : {a b : Rollout} → ◌≡◌ {A = Result Error Rollout} (ok a) (ok b) → a ≡ b
ok-inj e = cc e

stored_twice : (o : Option Time) → stored (stored o) ≡ stored o
stored_twice o = ground arith

-- The rollout r as it is read after q was written over it.
abbrev pub over : Rollout → Rollout → Rollout
over q r = record r {
  status = q.status;
  current_batch = q.current_batch;
  success_count = q.success_count;
  failure_count = q.failure_count;
  timeout_count = q.timeout_count;
  pause_reason = q.pause_reason;
  started_at = stored q.started_at;
  completed_at = stored q.completed_at;
}

read-write : (q x : Rollout) → read_rollout (write_rollout q x) ≡ over q (read_rollout x)
read-write q x = rw (stored_twice q.started_at, stored_twice q.completed_at) refl

row_written :
    {A : Type 0} (key : A → Str) (id : Str) (rows : List A) (a : A)
    → row key id rows ≡ some a
    → has_row key id rows ≡ true
unfolding row has_row
row_written key id [] a h = absurd cc
row_written key id (b ∷ rows) a h = elim (Bool-cases (str_eq (key b) id)) [
  | inl here ↦ rw here refl
  | inr other ↦ rw other (row_written key id rows a (rw other at h))
]

row-update_rows_other :
    {A : Type 0} (key : A → Str) (set : A → A) (id k : Str) (rows : List A)
    → ((b : A) → key (set b) ≡ key b)
    → str_eq id k ≡ false
    → row key k (update_rows key set id rows) ≡ row key k rows
unfolding row update_rows
row-update_rows_other key set id k [] same apart = refl
row-update_rows_other key set id k (b ∷ rows) same apart =
    let rest = row-update_rows_other key set id k rows same apart in
    elim (Bool-cases (str_eq (key b) id)) [
      | inl here ↦
          let away : str_eq (key b) k ≡ false = rw (str_eq→eq (key b) id here) apart in
          rw (here, same b, away) rest
      | inr other ↦ rw other (ap (λ o. if str_eq (key b) k then some b else o) rest)
    ]

-- The update succeeds; the rollout is then read as r with the columns of q, and every other id is
-- read as before.
abbrev pub Updates : {f : Floats} → Store f → Rollout → Rollout → Result Error (Store f) → Type 0
Updates {f} s q r (err x) = ⊥
Updates {f} s q r (ok t) =
    (get_rollout f t q.id ≡ ok (over q r))
    × ((id : Str) → str_eq q.id id ≡ false → get_rollout f t id ≡ get_rollout f s id)

-- Where `GetRollout` reads a rollout r, `UpdateRollout` with that id succeeds. `GetRollout` then reads
-- r with the written status, current batch, three counts and reason, and with the written start and
-- completion as the columns hold them; every other id is read as before.
pub update_rollout-get_rollout :
    (f : Floats) (s : Store f) (q r : Rollout)
    → get_rollout f s q.id ≡ ok r
    → Updates s q r (update_rollout f s q)
unfolding get_rollout update_rollout
update_rollout-get_rollout f s q r read =
    elim (Option-cases (row (λ (x : Rollout). x.id) q.id s.rollouts)) [
      | inl nothing ↦ absurd (cc (nothing, read))
      | inr (x, there) ↦
          let is_r : read_rollout x ≡ r = ok-inj (rw there at read) in
          rw (row_written (λ (x : Rollout). x.id) q.id s.rollouts x there) (
            rw
                (
                  row-update_rows (λ (x : Rollout). x.id) (write_rollout q) q.id s.rollouts x
                      (λ b. refl) there,
                  ← is_r,
                )
                (ap ok (read-write q x)),
            λ id apart. ap (read_one read_rollout) (
                row-update_rows_other (λ (x : Rollout). x.id) (write_rollout q) q.id id s.rollouts
                  (λ b. refl) apart),
          )
    ]
