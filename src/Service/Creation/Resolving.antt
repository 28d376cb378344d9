-- ===== src/Service/Creation/Resolving.antt =====
-- The devices that `resolveTargets` returns.
use edge_rollout_control_ser.Base.{
  ◌≡◌, ◌≢◌, refl, sym, subst, Bool, true, some, List, [], ◌∷◌, map, Str, is_empty, str_eq,
  str_eq→eq, str_eq_refl, str_ltb, if◌then◌else◌, All, All-map, All-sort_by, Sorted, All-select,
  Sorted-select, All-take, All-drop, All-mem, sort_by_key, select, Result, ok, Bool-cases,
  Option-cases, Result-cases, inl, inr,
}
use edge_rollout_control_ser.Base.Floats.{Floats}
use edge_rollout_control_ser.Device.{Device}
use edge_rollout_control_ser.Store.{Error, Store, row}
use edge_rollout_control_ser.Store.Rows.{get_device}
use edge_rollout_control_ser.Store.Listings
use edge_rollout_control_ser.Store.Listings.{DeviceFilter}
use edge_rollout_control_ser.Store.Creation.{get_group}
use edge_rollout_control_ser.Service.{Env, pure, query}
use edge_rollout_control_ser.Service.Creation.{
  put, put_all, targets_of, value_of, is_live, id_less, load_all, resolve_targets,
}
use edge_rollout_control_ser.Service.Outcomes.{
  Gives, Gives-fact, Gives-after, Gives-bind, Gives-pure, Gives-query, Gives-before,
}
use mathlib.Core.List.{Mem, mem-cons}
use mathlib.Core.Logic.Or

-- The entries of `byID`: each device under its own id, no id twice.
abbrev Entry : (Device → Type 0) → Str × Device → Type 0
Entry P x = (x.1.id ≡ x.0) × P x.1

abbrev key_of : Str × Device → Str
key_of (key, d) = key

abbrev OtherKey : Str × Device → Str × Device → Type 0
OtherKey x y = key_of x ≢ key_of y

abbrev ById : (Device → Type 0) → List (Str × Device) → Type 0
ById P m = All (Entry P) m × Sorted OtherKey m

All-put :
    (P : Str × Device → Type 0) (key : Str) (d : Device) (m : List (Str × Device))
    → ((k : Str) → k ≡ key → P (k, d))
    → All P m
    → All P (put key d m)
unfolding put
All-put P key d [] p h = (p key refl, tt)
All-put P key d ((k, old) ∷ m) p h = elim (Bool-cases (str_eq k key)) [
  | inl e ↦ rw e (p k (str_eq→eq k key e), h.1)
  | inr e ↦ rw e (h.0, All-put P key d m p h.1)
]

Sorted-put :
    (key : Str) (d : Device) (m : List (Str × Device))
    → Sorted OtherKey m
    → Sorted OtherKey (put key d m)
unfolding put
Sorted-put key d [] s = (tt, tt)
Sorted-put key d ((k, old) ∷ m) s = elim (Bool-cases (str_eq k key)) [
  | inl e ↦ rw e s
  | inr e ↦ rw e (
    All-put (OtherKey (k, old)) key d m (λ j same h. cc (h, same, e, str_eq_refl k)) s.0,
    Sorted-put key d m s.1,
  )
]

put-ById :
    (P : Device → Type 0) (key : Str) (d : Device) (m : List (Str × Device))
    → d.id ≡ key
    → P d
    → ById P m
    → ById P (put key d m)
put-ById P key d m same p h =
    (All-put (Entry P) key d m (λ k e. (cc, p)) h.0, Sorted-put key d m h.1)

put_all-ById :
    (P : Device → Type 0) (ds : List Device) (m : List (Str × Device))
    → All P ds
    → ById P m
    → ById P (put_all ds m)
unfolding put_all
put_all-ById P [] m p h = h
put_all-ById P (d ∷ ds) m p h =
    put_all-ById P ds (put d.id d m) p.1 (put-ById P d.id d m refl p.0 h)

abbrev id_of : Device → Str
id_of d = d.id

All-values :
    (Q : Device → Type 0) (P : Str × Device → Type 0) (m : List (Str × Device))
    → ((x : Str × Device) → P x → Q (value_of x))
    → All P m
    → All Q (map value_of m)
All-values Q P [] f h = tt
All-values Q P (x ∷ m) f h = (f x h.0, All-values Q P m f h.1)

ids_apart :
    (P : Device → Type 0) (m : List (Str × Device))
    → ById P m
    → Sorted (λ a b. id_of a ≢ id_of b) (map value_of m)
ids_apart P [] h = tt
ids_apart P (x ∷ m) h = (others m h.0.0.0 h.0.1 h.1.0, ids_apart P m (h.0.1, h.1.1))
  where
    others :
        (m : List (Str × Device))
        → x.1.id ≡ x.0
        → All (Entry P) m
        → All (OtherKey x) m
        → All (λ b. id_of x.1 ≢ id_of b) (map value_of m)
    others [] e p q = tt
    others (y ∷ m) e p q = ((λ same. q.0 (cc (same, e, p.0.0))), others m e p.1 q.1)

-- What is returned: live devices with P, in the strict order of their ids.
abbrev pub AreTargets : (Device → Type 0) → List Device → Type 0
AreTargets P ds =
    All (λ (d : Device). P d × (is_live d ≡ true)) ds
    × Sorted (λ (a : Device) (b : Device). str_ltb a.id b.id ≡ true) ds

targets_of-AreTargets :
    (P : Device → Type 0) (m : List (Str × Device)) → ById P m → AreTargets P (targets_of m)
unfolding targets_of
targets_of-AreTargets P m h = (
  All-sort_by id_less _ _
      (All-select P is_live (map value_of m) (All-values P (Entry P) m (λ x p. p.1) h.0)),
  sort_by_key id_of (select is_live (map value_of m))
      (Sorted-select _ is_live (map value_of m) (ids_apart P m h)),
)

ok-inj : {A : Type 0} {a b : A} → ◌≡◌ {A = Result Error A} (ok a) (ok b) → a ≡ b
ok-inj h = cc

row-Mem :
    (id : Str) (rows : List Device) (d : Device)
    → row id_of id rows ≡ some d
    → (d.id ≡ id) × Mem d rows
unfolding row
row-Mem id [] d h = absurd cc
row-Mem id (a ∷ rows) d h = elim (Bool-cases (str_eq a.id id)) [
  | inl e ↦
      let same : a ≡ d = cc (rw e at h) in
      (rw (sym same) (str_eq→eq a.id id e), mem-cons.1 (Or.inl (sym same)))
  | inr e ↦ let (is_id, there) = row-Mem id rows d (rw e at h) in (is_id, mem-cons.1 (Or.inr there))
]

module _ {f : Floats} where
  -- A device of the table.
  abbrev pub InTable : Store f → Device → Type 0
  InTable s d = Mem d s.devices

  get_device-InTable :
      (s : Store f) (id : Str) (d : Device) → get_device f s id ≡ ok d → (d.id ≡ id) × InTable s d
  unfolding get_device
  get_device-InTable s id d h = elim (Option-cases (row id_of id s.devices)) [
    | inl e ↦ absurd (cc (e, h))
    | inr (x, e) ↦ row-Mem id s.devices d (cc (e, h))
  ]

  list_devices-InTable :
      (like : Str → Str → Bool) (s : Store f) (q : DeviceFilter)
      → All (InTable s) (Listings.list_devices f like s q).0
  unfolding Listings.list_devices
  list_devices-InTable like s q = All-take _ _ _ (
      All-drop _ _ _ (
        All-sort_by _ _ _
          (All-map (λ d h. h.0) _ (All-select (InTable s) _ s.devices (All-mem s.devices)))))

  resolve_group-InTable :
      (like : Str → Str → Bool) (s : Store f) (id : Str) (ds : List Device)
      → Listings.resolve_group f like s id ≡ ok ds
      → All (InTable s) ds
  unfolding Listings.resolve_group
  resolve_group-InTable like s id ds h = elim (Result-cases (get_group f s id)) [
    | inl (g, e) ↦
        subst (All (InTable s)) (ok-inj (rw e at h))
          (list_devices-InTable like s (Listings.of_group f g))
    | inr (x, e) ↦ absurd (cc (e, h))
  ]

  module _ (e : Env) (before : Store f) where
    -- The tables as they were.
    abbrev pub Same : Store f → Type 0
    Same s = s ≡ before

    Gives-load_all :
        (ids : List Str) (m : List (Str × Device))
        → ById (InTable before) m
        → Gives Same (load_all f e ids m) (λ m' s. Same s × ById (InTable before) m') Same
    unfolding load_all
    Gives-load_all [] m h = Gives-pure _ _ _ m (λ s i. (i, h))
    Gives-load_all (id ∷ ids) m h =
        Gives-bind _ _ _ _ _ _ (Gives-query e Same Same _ (λ s i. i)) λ d.
          Gives-fact _ _ _ _
            (λ s i. get_device-InTable before id d (subst (λ z. get_device f z id ≡ ok d) i.0 i.1))
            λ found.
              Gives-before _ _ _ _ _ (λ s i. i.0)
                (Gives-load_all ids (put id d m)
                  (put-ById (InTable before) id d m found.0 found.1 h))

    Gives-group :
        (group_id : Str)
        → Gives Same
            (if is_empty group_id
              then pure []
              else query f e (λ s. Listings.resolve_group f e.like s group_id))
            (λ ds s. Same s × All (InTable before) ds)
            Same
    Gives-group [] = Gives-pure _ _ _ [] (λ s i. (i, tt))
    Gives-group (b ∷ g) =
        Gives-after _ _ _ _ _
          (λ ds s i. (
            i.0,
            resolve_group-InTable e.like before (b ∷ g) ds
                (subst (λ z. Listings.resolve_group f e.like z (b ∷ g) ≡ ok ds) i.0 i.1),
          ))
          (Gives-query e Same Same _ (λ s i. i))

    -- `resolveTargets` returns devices of the table that are not retired, each once, in the strict
    -- order of their ids, and changes nothing.
    pub Gives-resolve_targets :
        (group_id : Str) (ids : List Str)
        → Gives Same
            (resolve_targets f e group_id ids)
            (λ ds s. Same s × AreTargets (InTable before) ds)
            Same
    unfolding resolve_targets
    Gives-resolve_targets group_id ids = Gives-bind _ _ _ _ _ _ (Gives-group group_id) λ items.
        Gives-fact _ _ _ _ (λ s i. i.1)
          λ in_table.
            Gives-before _ _ _ _ _ (λ s i. i.0)
              (Gives-bind _ _ _ _ _ _
                (Gives-load_all ids (put_all items [])
                  (put_all-ById (InTable before) items [] in_table (tt, tt)))
                λ m.
                  Gives-pure _ _ _ (targets_of m)
                    (λ s i. (i.0, targets_of-AreTargets (InTable before) m i.1)))
