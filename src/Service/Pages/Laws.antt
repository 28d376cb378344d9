-- ===== src/Service/Pages/Laws.antt =====
-- The pages that the listing calls of the service return.
use mathlib.Core.List.Perm
use mathlib.Core.List.{Perm}
use edge_rollout_control_ser.Base.{
  ℕ, zero, suc, ◌≤◌, ◌≡◌, true, false, List, ◌++◌, Str, length, take, drop, All, Sorted, str_ltb,
  min, Result, ok, err,
}
use edge_rollout_control_ser.Base.Int.{ℤ, pos, negsuc, pos_part}
use edge_rollout_control_ser.Base.Floats.{Floats}
use edge_rollout_control_ser.Device.{Device}
use edge_rollout_control_ser.Rule.{Rule}
use edge_rollout_control_ser.Receipt.{Receipt}
use edge_rollout_control_ser.Audit
use edge_rollout_control_ser.Store.{Error, database, Store}
use edge_rollout_control_ser.Store.Deliveries.{time_key}
use edge_rollout_control_ser.Store.Listings
use edge_rollout_control_ser.Service.{Env, World}
use edge_rollout_control_ser.Service.Pages

-- How many rows a page may have: what was asked for, 50 without a positive limit, 1000 at most.
abbrev pub page_size : ℤ → ℕ
page_size (pos zero) = 50
page_size (pos (suc n)) = min (suc n) 1000
page_size (negsuc n) = 50

-- The page xs of a table: `found` are all rows that are asked for, in the order R, and `others` the
-- rest of the table.
pub record IsPage {A : Type 0} (Asks : A → Type 0) (R : A → A → Type 0) (limit offset : ℤ)
    (table xs : List A) (total : ℕ) : Type 0 where
  pub found : List A
  pub others : List A
  pub whole : Perm (found ++ others) table
  pub asked : All Asks found
  pub unasked : All (λ a. ¬ Asks a) others
  pub ordered : Sorted R found
  pub counted : total ≡ length found
  pub cut : xs ≡ take (page_size limit) (drop (pos_part offset) found)

-- A listing fails only if the database does, changes no table, and returns such a page of the table.
abbrev pub Listed :
    {f : Floats} {A : Type 0}
    → Env
    → World f
    → (A → Type 0)
    → (A → A → Type 0)
    → ℤ
    → ℤ
    → (Store f → List A)
    → Result Error (List A × ℕ) × World f
    → Type 0
Listed e w Asks R limit offset table (ok (xs, total), after) =
    (e.fails w.calls ≡ false)
    × (after.store ≡ w.store)
    × IsPage Asks R limit offset (table w.store) xs total
Listed e w Asks R limit offset table (err x, after) =
    (e.fails w.calls ≡ true) × (after.store ≡ w.store) × (x ≡ database)

abbrev pub IsByName : {A : Type 0} → (A → Str) → A → A → Type 0
IsByName name a b = str_ltb (name b) (name a) ≡ false

abbrev pub IsNewestFirst : {A : Type 0} → (A → ℕ) → A → A → Type 0
IsNewestFirst at a b = time_key (at b) ≤ time_key (at a)
