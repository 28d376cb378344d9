-- ===== src/Audit/Timelines.antt =====
-- `BuildTimeline`, `ValidateSequence` and `MergeTimelines` against plain descriptions.
use mathlib.Core.Path.{fun_ext}
use mathlib.Core.List.{Perm, Nodup}
use mathlib.Core.List.Perm
use edge_rollout_control_ser.Base.{
  ◌≤◌, ◌≡◌, ◌↔◌, refl, sym, ◌∙◌, subst, true, ◌||◌, List, [], ◌∷◌, map, Str, str_eq, str_eq→eq,
  str_eq_refl, str_ltb, ltb, contains, contains→Mem, Mem→contains, Fresh, Fresh→Nodup, sort_by,
  sort_by-perm, sort_by-Sorted, IsWeakOrder, Before, Sorted, Sorted-map, All, arith, ok, Bool-cases,
  inl, inr, lex-IsWeakOrder, by_number-IsWeakOrder, by_text-IsWeakOrder,
}
use edge_rollout_control_ser.Audit.{
  Event, Timeline, match_sequence, validate_sequence, merge_from, all_events, merge_timelines,
  created_less, head_time, last_time, build_timeline,
}

-- Some events carry the actions, in their order.
pub data Carries : List Str → List Event → Type 0 where
  done : {es : List Event} → Carries [] es
  skip : {rs : List Str} {es : List Event} (e : Event) → Carries rs es → Carries rs (e ∷ es)
  take :
      {rs : List Str} {es : List Event} (e : Event)
      → Carries rs es
      → Carries (e.action ∷ rs) (e ∷ es)

match_sequence-Carries :
    (rs : List Str) (es : List Event) → match_sequence rs es ≡ [] → Carries rs es
unfolding match_sequence
match_sequence-Carries [] es h = done
match_sequence-Carries (r ∷ rs) [] h = absurd cc
match_sequence-Carries (r ∷ rs) (e ∷ es) h = elim (Bool-cases (str_eq e.action r)) [
  | inl same ↦
      subst (λ a. Carries (a ∷ rs) (e ∷ es)) (str_eq→eq e.action r same)
        (take e (match_sequence-Carries rs es (rw (same, match_sequence) at h)))
  | inr other ↦ skip e (match_sequence-Carries (r ∷ rs) es (rw (other, match_sequence) at h))
]

Carries-tail : (r : Str) (rs : List Str) (es : List Event) → Carries (r ∷ rs) es → Carries rs es
Carries-tail r rs [] c = elim c [ ]
Carries-tail r rs (e ∷ es) (skip _ c) = skip e (Carries-tail r rs es c)
Carries-tail r rs (e ∷ es) (take _ c) = skip e c

Carries-match_sequence :
    (rs : List Str) (es : List Event) → Carries rs es → match_sequence rs es ≡ []
unfolding match_sequence
Carries-match_sequence [] es c = refl
Carries-match_sequence (r ∷ rs) [] c = elim c [ ]
Carries-match_sequence (r ∷ rs) (e ∷ es) (skip _ c) = elim (Bool-cases (str_eq e.action r)) [
  | inl same ↦ rw (same, match_sequence) (Carries-match_sequence rs es (Carries-tail r rs es c))
  | inr other ↦ rw (other, match_sequence) (Carries-match_sequence (r ∷ rs) es c)
]
Carries-match_sequence (r ∷ rs) (e ∷ es) (take _ c) =
    rw (str_eq_refl e.action, match_sequence) (Carries-match_sequence rs es c)

-- `ValidateSequence` accepts a timeline exactly if some of its events carry the required actions in
-- the required order: taking the first event that fits misses none.
pub validate_sequence_iff :
    (t : Timeline) (required : List Str)
    → (validate_sequence t required ≡ ok tt) ↔ Carries required t.events
unfolding validate_sequence
validate_sequence_iff t required = (
  λ h. match_sequence-Carries required t.events (ground arith),
  λ c. rw (Carries-match_sequence required t.events c, validate_sequence) refl,
)

created_less-IsWeakOrder : IsWeakOrder created_less
created_less-IsWeakOrder = subst IsWeakOrder (fun_ext λ a. fun_ext λ b. ground arith) (
    lex-IsWeakOrder (λ (a : Event) (b : Event). ltb a.created_at b.created_at)
      (λ a b. str_ltb a.id b.id) (by_number-IsWeakOrder (λ (e : Event). e.created_at))
      (by_text-IsWeakOrder (λ (e : Event). e.id)))

abbrev pub Chronological : List Event → Type 0
Chronological = Sorted (λ (a : Event) (b : Event). a.created_at ≤ b.created_at)

before_last :
    (e : Event) (es : List Event)
    → Chronological (e ∷ es)
    → All (λ (d : Event). d.created_at ≤ last_time (e ∷ es)) (e ∷ es)
before_last e [] s = (omega arith, tt)
before_last e (d ∷ es) s = let rest = before_last d es s.1 in (omega (arith, s.0.0, rest.0), rest)

-- The events of a timeline lie between its ends.
abbrev pub Spans : Timeline → Type 0
Spans t = All (λ (e : Event). (t.first_at ≤ e.created_at) × (e.created_at ≤ t.last_at)) t.events

both :
    (P Q : Event → Type 0) (es : List Event)
    → All P es
    → All Q es
    → All (λ (e : Event). P e × Q e) es
both P Q [] p q = tt
both P Q (e ∷ es) p q = ((p.0, q.0), both P Q es p.1 q.1)

spans :
    (es : List Event)
    → Chronological es
    → All (λ (e : Event). (head_time es ≤ e.created_at) × (e.created_at ≤ last_time es)) es
spans [] s = tt
spans (e ∷ es) s =
    both (λ d. e.created_at ≤ d.created_at) (λ d. d.created_at ≤ last_time (e ∷ es)) (e ∷ es)
      (omega arith, s.0) (before_last e es s)

pub record IsTimeline (es : List Event) (t : Timeline) : Type 0 where
  pub same : Perm t.events es
  pub ordered : Sorted (Before created_less) t.events
  pub chronological : Chronological t.events
  pub bounded : Spans t

Sorted-Chronological : (es : List Event) → Sorted (Before created_less) es → Chronological es
Sorted-Chronological es s = Sorted-map _ _ (λ a b h. ground arith) es s

-- A timeline that `BuildTimeline` returns has exactly the events given, sorted by time and, at the
-- same time, by id, and all of them lie between `FirstAt` and `LastAt`.
pub build_timeline-IsTimeline :
    (es : List Event) (t : Timeline) → build_timeline es ≡ ok t → IsTimeline es t
unfolding build_timeline
build_timeline-IsTimeline [] t h =
    let none : t.events ≡ [] = ground arith in
    record {
      same = rw none (Perm.refl []);
      ordered = rw none tt;
      chronological = rw none tt;
      bounded = rw none tt;
    }
build_timeline-IsTimeline (e ∷ es) t h =
    let ordered = sort_by created_less (e ∷ es) in
    let sorted = sort_by-Sorted created_less created_less-IsWeakOrder (e ∷ es) in
    let is_t : t.events ≡ ordered = ground arith in
    let first : t.first_at ≡ head_time ordered = ground arith in
    let last : t.last_at ≡ last_time ordered = ground arith in
    record {
      same = rw is_t (sort_by-perm created_less (e ∷ es));
      ordered = rw is_t sorted;
      chronological = rw is_t (Sorted-Chronological ordered sorted);
      bounded = rw (is_t, first, last) (spans ordered (Sorted-Chronological ordered sorted));
    }

abbrev ids : List Event → List Str
ids = map (λ (e : Event). e.id)

merge_from-Fresh : (seen : List Str) (es : List Event) → Fresh seen (ids (merge_from seen es))
unfolding merge_from
merge_from-Fresh seen [] = tt
merge_from-Fresh seen (e ∷ es) = elim (Bool-cases (contains seen e.id)) [
  | inl old ↦ rw old (merge_from-Fresh seen es)
  | inr new ↦ rw new (new, merge_from-Fresh (e.id ∷ seen) es)
]

merge_from-contains :
    (seen : List Str) (es : List Event) (id : Str)
    → (contains seen id || contains (ids (merge_from seen es)) id)
      ≡ (contains seen id || contains (ids es) id)
unfolding merge_from contains
merge_from-contains seen [] id = refl
merge_from-contains seen (e ∷ es) id = elim (Bool-cases (contains seen e.id)) [
  | inl old ↦ elim (Bool-cases (str_eq e.id id)) [
    | inl same ↦
        let here : contains seen id ≡ true =
          subst (λ k. contains seen k ≡ true) (str_eq→eq e.id id same) old in
        rw (old, here) refl
    | inr other ↦ rw (old, other) (merge_from-contains seen es id)
  ]
  | inr new ↦ rw new (let rest = merge_from-contains (e.id ∷ seen) es id in ground arith)
]

contains-perm : (xs ys : List Str) (id : Str) → Perm xs ys → contains xs id ≡ contains ys id
contains-perm xs ys id p = elim (Bool-cases (contains xs id)) [
  | inl h ↦ h ∙ sym (Mem→contains ys id ((Perm.mem_iff p).0 (contains→Mem xs id h)))
  | inr h ↦ elim (Bool-cases (contains ys id)) [
    | inl k ↦ absurd (cc (h, Mem→contains xs id ((Perm.mem_iff p).1 (contains→Mem ys id k))))
    | inr k ↦ h ∙ sym k
  ]
]

-- `MergeTimelines` returns each event id of the timelines, and no other, exactly once, in the order
-- of the events' times.
pub merge_timelines_merges :
    (ts : List Timeline)
    → let merged = merge_timelines ts in
      Nodup (map (λ (e : Event). e.id) merged)
      × ((id : Str)
          → contains (map (λ (e : Event). e.id) merged) id
            ≡ contains (map (λ (e : Event). e.id) (all_events ts)) id)
      × Chronological merged
unfolding merge_timelines contains
merge_timelines_merges ts =
    let es = merge_from [] (all_events ts) in
    let less = λ (a : Event) (b : Event). ltb a.created_at b.created_at in
    let p = Perm.map (λ (e : Event). e.id) (sort_by-perm less es) in
    (
      Perm.nodup (Perm.symm p) (Fresh→Nodup [] _ (merge_from-Fresh [] (all_events ts))),
      λ id. contains-perm _ _ id p ∙ merge_from-contains [] (all_events ts) id,
      Sorted-map _ _ (λ a b h. ground arith) (sort_by less es)
          (sort_by-Sorted less (by_number-IsWeakOrder (λ (e : Event). e.created_at)) es),
    )
