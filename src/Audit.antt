-- ===== src/Audit.antt =====
-- internal/domain/audit: audit events and the timeline of one resource.
pub mod Timelines
use edge_rollout_control_ser.Base.{
  ℕ, zero, suc, Bool, true, false, not, ◌||◌, ◌&&◌, Option, none, some, List, [], ◌∷◌, ◌++◌, Str,
  is_empty, str_eq, str_ltb, ltb, ◌==◌, if◌then◌else◌, length, last?, any_of, select, sort_by,
  insert_by, contains, Result, ok, err, fail_if,
}
use edge_rollout_control_ser.Base.Int.{ℤ, pos}
use edge_rollout_control_ser.Base.Time.{Time, is_zero, time_sub}

-- A detail of an event: the values that the program records are texts and numbers.
pub data Detail : Type 0 where
  text : Str → Detail
  number : ℤ → Detail

pub record Event : Type 0 where
  pub id : Str
  pub actor : Str
  pub action : Str
  pub resource_type : Str
  pub resource_id : Str
  pub request_id : Str
  pub details : List (Str × Detail)
  pub created_at : Time

pub data Error : Type 0 where
  invalid : Error

unfoldable pub validate : Event → Result Error (Unit {0})
validate e =
    fail_if
      (is_empty e.id || is_empty e.action || is_empty e.resource_type || is_empty e.resource_id)
      invalid

pub record Timeline : Type 0 where
  pub resource_type : Str
  pub resource_id : Str
  pub events : List Event
  pub first_at : Time
  pub last_at : Time

pub data TimelineError : Type 0 where
  different_resources sequence_missing : TimelineError

abbrev pub empty_timeline : Timeline
empty_timeline = record {
  resource_type = [];
  resource_id = [];
  events = [];
  first_at = 0;
  last_at = 0;
}

abbrev pub created_less : Event → Event → Bool
created_less a b =
    if a.created_at == b.created_at then str_ltb a.id b.id else ltb a.created_at b.created_at

abbrev pub head_time : List Event → Time
head_time [] = 0
head_time (e ∷ es) = e.created_at

abbrev pub last_time : List Event → Time
last_time es = elim (last? es) [ none ↦ 0 | some e ↦ e.created_at ]

unfoldable pub build_timeline : List Event → Result TimelineError Timeline
unfolding sort_by insert_by str_ltb str_eq
build_timeline [] = ok empty_timeline
build_timeline (e ∷ es) =
    if any_of
      (λ d.
        not (str_eq d.resource_type e.resource_type) || not (str_eq d.resource_id e.resource_id))
      (e ∷ es)
    then err different_resources
    else (let ordered = sort_by created_less (e ∷ es) in
        ok (record {
          resource_type = e.resource_type;
          resource_id = e.resource_id;
          events = ordered;
          first_at = head_time ordered;
          last_at = last_time ordered;
        }))

-- The loops of `Actions` and `Actors`: `seen` is the map, whose keys are the result so far.
unfoldable pub collect : (Event → Str) → Bool → List Str → List Event → List Str
unfolding contains
collect field skip_empty seen [] = seen
collect field skip_empty seen (e ∷ es) =
    collect field skip_empty
      (if (skip_empty && is_empty (field e)) || contains seen (field e)
        then seen
        else seen ++ field e ∷ [])
      es

unfoldable pub actions : Timeline → List Str
unfolding collect sort_by insert_by str_ltb
actions t = sort_by str_ltb (collect (λ e. e.action) false [] t.events)

unfoldable pub actors : Timeline → List Str
unfolding collect sort_by insert_by str_ltb
actors t = sort_by str_ltb (collect (λ e. e.actor) true [] t.events)

unfoldable pub duration : Timeline → ℤ
unfolding time_sub
duration t =
    if is_zero t.first_at || is_zero t.last_at || ltb t.last_at t.first_at
    then pos 0
    else time_sub t.last_at t.first_at

unfoldable pub find : Timeline → Str → List Event
unfolding str_eq
find t action = select (λ e. str_eq e.action action) t.events

unfoldable pub has_action : Timeline → Str → Bool
unfolding str_eq
has_action t action = any_of (λ e. str_eq e.action action) t.events

-- The loop of `ValidateSequence`, with what is left of `required` for the position in it.
unfoldable pub match_sequence : List Str → List Event → List Str
unfolding str_eq
match_sequence [] es = []
match_sequence (r ∷ required) [] = r ∷ required
match_sequence (r ∷ required) (e ∷ es) =
    match_sequence (if str_eq e.action r then required else r ∷ required) es

unfoldable pub validate_sequence : Timeline → List Str → Result TimelineError (Unit {0})
unfolding match_sequence
validate_sequence t required = elim (match_sequence required t.events) [
  | [] ↦ ok tt
  | r ∷ rest ↦ err sequence_missing
]

unfoldable pub merge_from : List Str → List Event → List Event
unfolding contains
merge_from seen [] = []
merge_from seen (e ∷ es) =
    let rest = merge_from (e.id ∷ seen) es in
    let skip = merge_from seen es in if contains seen e.id then skip else e ∷ rest

abbrev pub all_events : List Timeline → List Event
all_events [] = []
all_events (t ∷ ts) = t.events ++ all_events ts

unfoldable pub merge_timelines : List Timeline → List Event
unfolding merge_from sort_by insert_by
merge_timelines ts = sort_by (λ a b. ltb a.created_at b.created_at) (merge_from [] (all_events ts))
