-- ===== src/Base/Words.antt =====
-- What the program uses of the package `strings`, on the bytes of a UTF-8 text.
use Prim.Native.Nat.{ℕ}
use mathlib.Core.Bool.{Bool, ◌&&◌, ◌||◌}
use mathlib.Core.List.{List, [], ◌∷◌, ◌++◌, reverse}
use mathlib.Core.Option.{Option, none, some}
use edge_rollout_control_ser.Base.Tests.{leb, ◌==◌, if◌then◌else◌}
use edge_rollout_control_ser.Base.Text.{Str}

-- The encodings of the characters that `unicode.IsSpace` accepts, by their length.
abbrev pub space1 : ℕ → Bool
space1 a = (leb 9 a && leb a 13) || a == 32

abbrev pub space2 : ℕ → ℕ → Bool
space2 a b = a == 0xC2 && (b == 0x85 || b == 0xA0)

abbrev pub space3 : ℕ → ℕ → ℕ → Bool
space3 a b c =
    (a == 0xE1 && b == 0x9A && c == 0x80)
    || (a == 0xE2
        && b == 0x80
        && ((leb 0x80 c && leb c 0x8A) || c == 0xA8 || c == 0xA9 || c == 0xAF))
    || (a == 0xE2 && b == 0x81 && c == 0x9F)
    || (a == 0xE3 && b == 0x80 && c == 0x80)

unfoldable pub trim_left : Str → Str
trim_left [] = []
trim_left (a ∷ []) = if space1 a then [] else a ∷ []
trim_left (a ∷ b ∷ []) =
    let rest = trim_left (b ∷ []) in
    if space1 a then rest else if space2 a b then [] else a ∷ b ∷ []
trim_left (a ∷ b ∷ c ∷ s) =
    let rest1 = trim_left (b ∷ c ∷ s) in
    let rest2 = trim_left (c ∷ s) in
    let rest3 = trim_left s in
    if space1 a
    then rest1
    else if space2 a b
    then rest2
    else if space3 a b c
    then rest3
    else a ∷ b ∷ c ∷ s

-- The same from the end, on the reversed text.
unfoldable pub trim_left_reversed : Str → Str
trim_left_reversed [] = []
trim_left_reversed (a ∷ []) = if space1 a then [] else a ∷ []
trim_left_reversed (b ∷ a ∷ []) =
    let rest = trim_left_reversed (a ∷ []) in
    if space1 b then rest else if space2 a b then [] else b ∷ a ∷ []
trim_left_reversed (c ∷ b ∷ a ∷ s) =
    let rest1 = trim_left_reversed (b ∷ a ∷ s) in
    let rest2 = trim_left_reversed (a ∷ s) in
    let rest3 = trim_left_reversed s in
    if space1 c
    then rest1
    else if space2 b c
    then rest2
    else if space3 a b c
    then rest3
    else c ∷ b ∷ a ∷ s

-- `strings.TrimSpace`
unfoldable pub trim_space : Str → Str
unfolding trim_left trim_left_reversed
trim_space s = reverse (trim_left_reversed (reverse (trim_left s)))

-- `strings.Split` at one byte; there is always a first part.
abbrev pub push_byte : ℕ → List Str → List Str
push_byte b [] = (b ∷ []) ∷ []
push_byte b (w ∷ ws) = (b ∷ w) ∷ ws

unfoldable pub split : ℕ → Str → List Str
split sep [] = [] ∷ []
split sep (b ∷ s) = let rest = split sep s in if b == sep then [] ∷ rest else push_byte b rest

-- `strings.SplitN(s, sep, 2)`: what stands before the first separator, and after it if there is one.
abbrev pub push_first : ℕ → Str × Option Str → Str × Option Str
push_first b (w, after) = (b ∷ w, after)

unfoldable pub split_first : ℕ → Str → Str × Option Str
split_first sep [] = ([], none)
split_first sep (b ∷ s) =
    let rest = split_first sep s in if b == sep then ([], some s) else push_first b rest

-- `strings.Join`
unfoldable pub join : Str → List Str → Str
join sep [] = []
join sep (w ∷ []) = w
join sep (w ∷ v ∷ ws) = w ++ sep ++ join sep (v ∷ ws)
