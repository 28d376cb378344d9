-- ===== src/Device/Selector.antt =====
-- internal/domain/device/selector.go: conjunctions of `key=value` terms over the labels of devices.
-- A map is an association list whose keys differ, in the order of its iteration.
pub mod Laws
use edge_rollout_control_ser.Base.{
  ℕ, Bool, true, false, not, ◌||◌, ◌&&◌, Option, none, some, List, [], ◌∷◌, ◌++◌, map, Str, bytes,
  is_empty, trim_space, split, join, str_eq, str_ltb, ltb, ◌==◌, if◌then◌else◌, length, sort_by,
  insert_by, Result, ok, err, ◌>>=◌,
}
use edge_rollout_control_ser.Device.{Labels, Term, Error, invalid, parse_selector}

pub record SelectorExpression : Type 0 where
  pub terms : List Term

-- `labels[key]`: the empty string for a missing key.
unfoldable pub label_at : Labels → Str → Str
label_at [] key = []
label_at ((k, v) ∷ labels) key = let rest = label_at labels key in if str_eq k key then v else rest

-- `m[key] = value`
unfoldable pub set_label : Labels → Str → Str → Labels
set_label [] key value = (key, value) ∷ []
set_label ((k, v) ∷ labels) key value =
    let rest = set_label labels key value in
    if str_eq k key then (k, value) ∷ labels else (k, v) ∷ rest

unfoldable pub parse_terms : List Str → Result Error (List Term)
unfolding parse_selector
parse_terms [] = ok []
parse_terms (part ∷ parts) =
    let rest = parse_terms parts in
    parse_selector part >>= λ term. rest >>= λ terms. ok (term ∷ terms)

unfoldable pub parse_selector_expression : Str → Result Error SelectorExpression
unfolding split parse_terms
parse_selector_expression raw =
    let parts = split b',' raw in
    if length parts == 0
    then err invalid
    else (parse_terms parts >>= λ terms. ok (record { terms = terms }))

unfoldable pub match_terms : List Term → Labels → Bool
unfolding label_at str_eq
match_terms [] labels = true
match_terms (t ∷ ts) labels =
    let rest = match_terms ts labels in
    if not (str_eq (label_at labels t.key) t.value) then false else rest

unfoldable pub matches : SelectorExpression → Labels → Bool
unfolding match_terms
matches s labels = if length s.terms == 0 then false else match_terms s.terms labels

unfoldable pub selector_string : SelectorExpression → Str
unfolding join
selector_string s = join (bytes ",") (map (λ t. t.key ++ bytes "=" ++ t.value) s.terms)

pub data LabelError : Type 0 where
  empty_label too_long : LabelError

-- The loop of `NormalizeLabels`; `result` is the map built so far.
unfoldable pub normalize_from : Labels → Labels → Result LabelError Labels
unfolding trim_space set_label
normalize_from result [] = ok result
normalize_from result ((k, v) ∷ input) =
    let key = trim_space k in
    let value = trim_space v in
    let rest = normalize_from (set_label result key value) input in
    if is_empty key || is_empty value
    then err empty_label
    else if ltb 64 (length key) || ltb 256 (length value)
    then err too_long
    else rest

unfoldable pub normalize_labels : Labels → Result LabelError Labels
unfolding normalize_from
normalize_labels = normalize_from []

unfoldable pub clone_from : Labels → Labels → Labels
unfolding set_label
clone_from result [] = result
clone_from result ((k, v) ∷ input) = clone_from (set_label result k v) input

unfoldable pub clone_labels : Labels → Labels
unfolding clone_from
clone_labels = clone_from []

unfoldable pub sorted_label_keys : Labels → List Str
unfolding sort_by insert_by str_ltb
sorted_label_keys labels = sort_by str_ltb (map (λ l. l.0) labels)

unfoldable pub label_fingerprint : Labels → Str
unfolding sorted_label_keys join label_at str_eq
label_fingerprint labels =
    join (bytes ";")
      (map (λ key. key ++ bytes "=" ++ label_at labels key) (sorted_label_keys labels))
