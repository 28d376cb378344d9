-- ===== src/Receipt/Summaries.antt =====
-- The latest receipt of each device.
use mathlib.Core.List.{Mem, mem-cons}
use mathlib.Core.Logic.Or
use edge_rollout_control_ser.Base.{
  ℕ, ◌≤◌, ◌≡◌, ◌≢◌, ◌⊎◌, inl, inr, refl, sym, subst, ◌∙◌, ap, true, false, Option, none, some, List,
  [], ◌∷◌, Str, str_eq, str_eq→eq, str_eq_refl, if◌then◌else◌, All, arith, Bool-cases,
}
use edge_rollout_control_ser.Receipt.{
  Receipt, latest_at, set_latest, is_later, latest_from, latest_by_device,
}

latest_at-set_latest :
    (key id : Str) (r : Receipt) (m : List (Str × Receipt))
    → latest_at id (set_latest key r m) ≡ (if str_eq key id then some r else latest_at id m)
unfolding latest_at set_latest
latest_at-set_latest key id r [] = refl
latest_at-set_latest key id r ((k, q) ∷ m) =
    let rest = latest_at-set_latest key id r m in
    elim (Bool-cases (str_eq k key)) [
      | inl same ↦ rw (same, str_eq→eq k key same) (ground arith)
      | inr other ↦ rw other (ground (arith, str_eq→eq k id, str_eq→eq key id, str_eq_refl id))
    ]

-- The map at one device: the first of the latest receipts.
abbrev best : Str → Option Receipt → List Receipt → Option Receipt
best id o [] = o
best id o (r ∷ rs) =
    best id (if str_eq r.device_id id then (if is_later r o then some r else o) else o) rs

latest_at_round :
    (id : Str) (m : List (Str × Receipt)) (r : Receipt)
    → latest_at id (if is_later r (latest_at r.device_id m) then set_latest r.device_id r m else m)
      ≡ (if str_eq r.device_id id
          then (if is_later r (latest_at id m) then some r else latest_at id m)
          else latest_at id m)
latest_at_round id m r =
    let set = latest_at-set_latest r.device_id id r m in
    elim (Bool-cases (str_eq r.device_id id)) [
      | inl same ↦
          let is_id = str_eq→eq r.device_id id same in
          elim (Bool-cases (is_later r (latest_at id m))) [
            | inl later ↦ rw (same, is_id, later) (rw (same, is_id) at set)
            | inr older ↦ rw (same, is_id, older) refl
          ]
      | inr other ↦ elim (Bool-cases (is_later r (latest_at r.device_id m))) [
        | inl later ↦ rw (other, later) (rw other at set)
        | inr older ↦ rw (other, older) refl
      ]
    ]

latest_from-best :
    (id : Str) (rs : List Receipt) (m : List (Str × Receipt))
    → latest_at id (latest_from m rs) ≡ best id (latest_at id m) rs
unfolding latest_from
latest_from-best id [] m = refl
latest_from-best id (r ∷ rs) m =
    latest_from-best id rs _ ∙ ap (λ o. best id o rs) (latest_at_round id m r)

-- What `o` and the receipts say of the best one.
record IsBest (id : Str) (o : Option Receipt) (rs : List Receipt) (b : Receipt) : Type 0 where
  from : (o ≡ some b) ⊎ (Mem b rs × (b.device_id ≡ id))
  above : (p : Receipt) → o ≡ some p → p.received_at ≤ b.received_at
  all : All (λ (r : Receipt). r.device_id ≡ id → r.received_at ≤ b.received_at) rs

le_trans : {a b c : ℕ} → a ≤ b → b ≤ c → a ≤ c
le_trans h k = omega arith

some-inj : {a b : Receipt} → some a ≡ some b → a ≡ b
some-inj e = cc e

later_above :
    (r : Receipt) (o : Option Receipt) (p : Receipt)
    → is_later r o ≡ true
    → o ≡ some p
    → p.received_at ≤ r.received_at
later_above r o p h e = ground arith

older_below :
    (r : Receipt) (o : Option Receipt)
    → is_later r o ≡ false
    → (q : Receipt) × (o ≡ some q) × (r.received_at ≤ q.received_at)
older_below r none h = absurd cc
older_below r (some q) h = (q, refl, ground arith)

further :
    (id : Str) (o : Option Receipt) (r : Receipt) (rs : List Receipt) (b : Receipt)
    → (o ≡ some b) ⊎ (Mem b rs × (b.device_id ≡ id))
    → (o ≡ some b) ⊎ (Mem b (r ∷ rs) × (b.device_id ≡ id))
further id o r rs b (inl e) = inl e
further id o r rs b (inr (m, d)) = inr (mem-cons.1 (Or.inr m), d)

best-IsBest :
    (id : Str) (o : Option Receipt) (rs : List Receipt) (b : Receipt)
    → best id o rs ≡ some b
    → IsBest id o rs b
best-IsBest id o [] b h = record { from = inl h; above = λ p e. ground arith; all = tt }
best-IsBest id o (r ∷ rs) b h = elim (Bool-cases (str_eq r.device_id id)) [
  | inl same ↦ elim (Bool-cases (is_later r o)) [
    | inl later ↦
        let i = best-IsBest id (some r) rs b (rw (same, later) at h) in
        record {
          from = inr (elim i.from [
            | inl e ↦ (
              mem-cons.1 (Or.inl (sym (some-inj e))),
              subst (λ a. a.device_id ≡ id) (some-inj e) (str_eq→eq r.device_id id same),
            )
            | inr (m, d) ↦ (mem-cons.1 (Or.inr m), d)
          ]);
          above = λ p e. le_trans (later_above r o p later e) (i.above r refl);
          all = ((λ d. i.above r refl), i.all);
        }
    | inr older ↦
        let i = best-IsBest id o rs b (rw (same, older) at h) in
        let (q, is_q, below) = older_below r o older in
        record {
          from = further id o r rs b i.from;
          above = i.above;
          all = ((λ d. le_trans below (i.above q is_q)), i.all);
        }
  ]
  | inr other ↦
      let i = best-IsBest id o rs b (rw other at h) in
      record {
        from = further id o r rs b i.from;
        above = i.above;
        all = ((λ d. absurd (cc (other, d, str_eq_refl id))), i.all);
      }
]

best_nothing :
    (id : Str) (o : Option Receipt) (rs : List Receipt)
    → best id o rs ≡ none
    → (o ≡ none) × All (λ (r : Receipt). r.device_id ≢ id) rs
best_nothing id o [] h = (h, tt)
best_nothing id o (r ∷ rs) h = elim (Bool-cases (str_eq r.device_id id)) [
  | inl same ↦ elim (Bool-cases (is_later r o)) [
    | inl later ↦ absurd (cc (best_nothing id (some r) rs (rw (same, later) at h)).0)
    | inr older ↦
        let (q, is_q, below) = older_below r o older in
        absurd (cc ((best_nothing id o rs (rw (same, older) at h)).0, is_q))
  ]
  | inr other ↦
      let (n, a) = best_nothing id o rs (rw other at h) in
      (n, ((λ d. cc (other, d, str_eq_refl id)), a))
]

-- The map of `LatestByDevice` has at each device a receipt of that device that no other one was
-- received after, and has no entry exactly for the devices without receipts.
pub latest_by_device_latest :
    (rs : List Receipt) (id : Str)
    → ((r : Receipt)
        → latest_at id (latest_by_device rs) ≡ some r
        → Mem r rs
          × (r.device_id ≡ id)
          × All (λ (q : Receipt). q.device_id ≡ id → q.received_at ≤ r.received_at) rs)
      × (latest_at id (latest_by_device rs) ≡ none → All (λ (r : Receipt). r.device_id ≢ id) rs)
unfolding latest_by_device latest_at
latest_by_device_latest rs id =
    let eq = latest_from-best id rs [] in
    (
      (λ r h.
          let b = best-IsBest id none rs r (sym eq ∙ h) in
          elim b.from [ inl e ↦ absurd cc | inr (m, d) ↦ (m, d, b.all) ]),
      λ h. (best_nothing id none rs (sym eq ∙ h)).1,
    )
