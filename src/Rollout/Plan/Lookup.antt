-- ===== src/Rollout/Plan/Lookup.antt =====
-- `FindCandidate` against the ids that the plan lists.
use mathlib.Core.List.{Memᴰ}
use edge_rollout_control_ser.Base.{
  ℕ, ◌≡◌, refl, Bool, true, false, Option, none, some, List, [], ◌∷◌, ◌++◌, ◌||◌, Str, str_eq,
  str_eq→eq, contains, arith, Option-cases, inl, inr, Bool-cases,
}
use edge_rollout_control_ser.Rollout.Plan.{
  Candidate, Batch, Plan, ids_of, batch_ids, candidate_ids, find_in, find_batches, find_candidate,
}

contains-append :
    (xs ys : List Str) (id : Str) → contains (xs ++ ys) id ≡ (contains xs id || contains ys id)
unfolding contains
contains-append [] ys id = refl
contains-append (x ∷ xs) ys id = ground (arith, contains-append xs ys id)

abbrev pub is_some {ℓ} : {A : Type ℓ} → Option A → Bool
is_some none = false
is_some (some a) = true

find_in-contains :
    (id : Str) (cs : List Candidate) → is_some (find_in id cs) ≡ contains (ids_of cs) id
unfolding find_in ids_of contains
find_in-contains id [] = refl
find_in-contains id (c ∷ cs) = ground (arith, find_in-contains id cs)

find_in_sound :
    (id : Str) (cs : List Candidate) (c : Candidate)
    → find_in id cs ≡ some c
    → (c.device_id ≡ id) × Memᴰ c cs
unfolding find_in
find_in_sound id [] c h = absurd (cc h)
find_in_sound id (d ∷ cs) c h = elim (Bool-cases (str_eq d.device_id id)) [
  | inl e ↦ let same : c ≡ d = ground arith in rw same (str_eq→eq _ _ e, Memᴰ.head refl)
  | inr n ↦ let (found, m) = find_in_sound id cs c (ground arith) in (found, Memᴰ.tail m)
]

find_batches-contains :
    (id : Str) (bs : List Batch) → is_some (find_batches id bs) ≡ contains (batch_ids bs) id
unfolding find_batches batch_ids contains
find_batches-contains id [] = refl
find_batches-contains id (b ∷ bs) = ground (
  arith,
  contains-append (ids_of b.candidates) (batch_ids bs) id,
  find_in-contains id b.candidates,
  find_batches-contains id bs,
  Option-cases (find_in id b.candidates),
)

-- A candidate stands in a batch of the list that has the number.
abbrev pub StandsIn : Candidate → ℕ → List Batch → Type 0
StandsIn c n bs = (b : Batch) × Memᴰ b bs × (b.number ≡ n) × Memᴰ c b.candidates

find_batches_sound :
    (id : Str) (bs : List Batch) (c : Candidate) (n : ℕ)
    → find_batches id bs ≡ some (c, n)
    → (c.device_id ≡ id) × StandsIn c n bs
unfolding find_batches
find_batches_sound id [] c n h = absurd (cc h)
find_batches_sound id (b ∷ bs) c n h = elim (Option-cases (find_in id b.candidates)) [
  | inl e ↦
      let (found, (d, m, is_n, in_d)) = find_batches_sound id bs c n (ground arith) in
      (found, (d, Memᴰ.tail m, is_n, in_d))
  | inr (d, e) ↦
      let same : d ≡ c = ground arith in
      let at : b.number ≡ n = ground arith in
      let (found, m) = find_in_sound id b.candidates c (ground arith) in
      (found, (b, Memᴰ.head refl, at, m))
]

-- `FindCandidate` finds something exactly for the ids that `CandidateIDs` lists, and what it finds
-- has the id asked for and stands in a batch of the plan with the number returned.
pub find_candidate_iff :
    (p : Plan) (id : Str)
    → (is_some (find_candidate p id) ≡ contains (candidate_ids p) id)
      × ((c : Candidate) (n : ℕ)
          → find_candidate p id ≡ some (c, n)
          → (c.device_id ≡ id) × StandsIn c n p.batches)
unfolding find_candidate candidate_ids
find_candidate_iff p id =
    (find_batches-contains id p.batches, λ c n h. find_batches_sound id p.batches c n h)
