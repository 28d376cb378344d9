-- ===== src/Rollout/Plan/Order.antt =====
-- The comparison by which the candidates are sorted.
use mathlib.Core.Path.{fun_ext}
use edge_rollout_control_ser.Base.{
  ℕ, ◌≡◌, subst, Bool, false, not, ◌&&◌, List, ◌++◌, Str, str_ltb, ltb, IsWeakOrder, lex,
  lex-IsWeakOrder, by_flag-IsWeakOrder, by_number-IsWeakOrder, by_text-IsWeakOrder, str_ltb_total,
  arith,
}
use edge_rollout_control_ser.Rollout.Plan.{Candidate, PlanOptions, stable_hash, candidate_less}

module _ (sha256 : Str → List ℕ) (o : PlanOptions) where
  -- The comparison is lexicographic: critical, online, hash, device id.
  abbrev by_keys : Candidate → Candidate → Bool
  by_keys =
      lex (λ a b. o.put_critical_first && (a.critical && not b.critical))
        (lex (λ a b. o.put_offline_last && (a.online && not b.online))
          (lex
            (λ a b.
              ltb (stable_hash sha256 (o.seed ++ o.rollout_id) a.device_id)
                (stable_hash sha256 (o.seed ++ o.rollout_id) b.device_id))
            (λ a b. str_ltb a.device_id b.device_id)))

  candidate_less-by_keys : (a b : Candidate) → by_keys a b ≡ candidate_less sha256 o a b
  unfolding candidate_less
  candidate_less-by_keys a b = ground arith

  by_keys-IsWeakOrder : IsWeakOrder by_keys
  by_keys-IsWeakOrder =
      lex-IsWeakOrder _ _ (by_flag-IsWeakOrder o.put_critical_first (λ c. c.critical)) (
        lex-IsWeakOrder _ _ (by_flag-IsWeakOrder o.put_offline_last (λ c. c.online)) (
          lex-IsWeakOrder _ _
            (by_number-IsWeakOrder (λ c. stable_hash sha256 (o.seed ++ o.rollout_id) c.device_id))
            (by_text-IsWeakOrder (λ c. c.device_id))))

  pub candidate_less-IsWeakOrder : IsWeakOrder (candidate_less sha256 o)
  candidate_less-IsWeakOrder =
      subst IsWeakOrder (fun_ext λ a. fun_ext λ b. candidate_less-by_keys a b) by_keys-IsWeakOrder

  -- Only candidates of one id are tied.
  pub candidate_less_tie :
      (a b : Candidate)
      → candidate_less sha256 o a b ≡ false
      → candidate_less sha256 o b a ≡ false
      → a.device_id ≡ b.device_id
  unfolding candidate_less
  candidate_less_tie a b h k = ground (arith, str_ltb_total a.device_id b.device_id)
