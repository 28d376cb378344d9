-- ===== src/Service/Repeats.antt =====
-- `SubmitReceipt` with an idempotency key that is stored already.
use edge_rollout_control_ser.Base.{
  ◌≡◌, refl, sym, ◌∙◌, subst, ap, Bool, true, false, List, [], ◌∷◌, Str, str_eq, any_of, Result, ok,
  err, Result-cases, inl, inr, arith,
}
use edge_rollout_control_ser.Base.Floats.{Floats}
use edge_rollout_control_ser.Receipt
use edge_rollout_control_ser.Receipt.{Receipt}
use edge_rollout_control_ser.Store.{Error, invalid_entity, Store}
use edge_rollout_control_ser.Store.Receipts.{create_receipt, clashes}
use edge_rollout_control_ser.Service.{Env, World, pure}
use edge_rollout_control_ser.Service.Reports.{SubmitReceiptCommand, submit_receipt, receipt_of}
use edge_rollout_control_ser.Service.Triples.{
  From, From-bind, From-refuse, From-now, From-new_id, From-query, From-execute_for_bind,
}

abbrev pub has_key : Str → List Receipt → Bool
has_key key = any_of (λ (o : Receipt). str_eq o.idempotency_key key)

clashes_key :
    (r : Receipt) (rs : List Receipt)
    → has_key r.idempotency_key rs ≡ true
    → any_of (clashes r) rs ≡ true
clashes_key r [] h = h
clashes_key r (o ∷ rs) h = ground (arith, clashes_key r rs)

abbrev made_of : {f : Floats} → Result Error (Bool × Store f) → Bool
made_of (ok x) = x.0
made_of (err x) = false

abbrev store_of : {f : Floats} → Store f → Result Error (Bool × Store f) → Store f
store_of s (ok x) = x.1
store_of s (err x) = s

create_receipt_again :
    {f : Floats} (s t : Store f) (r : Receipt) (created : Bool)
    → has_key r.idempotency_key s.receipts ≡ true
    → create_receipt f s r ≡ ok (created, t)
    → (created ≡ false) × (t ≡ s)
unfolding create_receipt
create_receipt_again {f} s t r created h made =
    let clash = clashes_key r s.receipts h in
    elim (Result-cases (Receipt.validate r)) [
      | inl (u, fine) ↦
          let same : ◌≡◌ {A = Result Error (Bool × Store f)} (ok (false, s)) (ok (created, t)) =
            rw (fine, create_receipt, clash) at made in
          (ap made_of (sym same), ap (store_of s) (sym same))
      | inr (x, bad) ↦
          let wrong : ◌≡◌ {A = Result Error (Bool × Store f)} (err invalid_entity)
              (ok (created, t)) =
            rw (bad, create_receipt) at made in
          absurd cc
    ]

-- Once a receipt with an idempotency key is stored, submitting another one with that key changes
-- nothing in any table: no target, device or rollout, and no audit event or delivery is added.
pub submit_receipt_repeats :
    (f : Floats) (e : Env) (w : World f) (device : Str) (c : SubmitReceiptCommand)
    → has_key c.idempotency_key w.store.receipts ≡ true
    → (submit_receipt f e device c w).1.store ≡ w.store
unfolding submit_receipt pure
submit_receipt_repeats f e w device c known =
    let I = λ (s : Store f). s ≡ w.store in
    From.leads
      (From-refuse I I _ _ _ (λ s i. i)
        λ filled.
          From-refuse I I _ _ _ (λ s i. i)
            λ status.
              From-bind I I I _ _ (From-query e I _) (λ s i. i)
                λ t.
                  From-refuse I I _ _ _ (λ s i. i)
                    λ fits.
                      From-bind I I I _ _ (From-now e I) (λ s i. i)
                        λ at.
                          From-bind I I I _ _ (From-new_id e I) (λ s i. i)
                            λ id.
                              From-execute_for_bind e I I _ _ (λ s i. i)
                                λ created. record {
                                  leads = λ v (s, is_w, made).
                                      let again =
                                        create_receipt_again s v.store
                                          (receipt_of f e device c id at) created
                                          (subst (λ x. has_key c.idempotency_key x.receipts ≡ true)
                                            (sym is_w) known)
                                          made in
                                      rw again.0 (again.1 ∙ is_w);
                                })
      w refl
