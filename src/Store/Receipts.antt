-- ===== src/Store/Receipts.antt =====
-- The statement that records a receipt: `INSERT OR IGNORE` on a table whose ids and idempotency keys
-- are unique.
use edge_rollout_control_ser.Base.{
  Bool, true, false, ◌||◌, [], ◌∷◌, ◌++◌, str_eq, any_of, if◌then◌else◌, Result, ok, err,
}
use edge_rollout_control_ser.Base.Floats.{Floats}
use edge_rollout_control_ser.Receipt
use edge_rollout_control_ser.Receipt.{Receipt}
use edge_rollout_control_ser.Store.{Error, invalid_entity, Store, stored}

abbrev pub clashes : Receipt → Receipt → Bool
clashes r o = str_eq o.id r.id || str_eq o.idempotency_key r.idempotency_key

module _ (f : Floats) where
  -- Whether a row was inserted, and the store.
  unfoldable pub create_receipt : Store f → Receipt → Result Error (Bool × Store f)
  create_receipt s r = elim (Receipt.validate r) [
    | err e ↦ err invalid_entity
    | ok u ↦
        if any_of (clashes r) s.receipts
        then ok (false, s)
        else ok (
          true,
          record s {
            receipts = s.receipts ++ record r { device_timestamp = stored r.device_timestamp } ∷ [];
          },
        )
  ]
