-- ===== src/Cmd/Text.antt =====
-- Split, TrimSpace, Fields, Join and ToUpper of package strings, on the bytes of a text.
pub mod Words
use titan_distributed_kv.Common.{
  ℕ, zero, suc, ◌+◌, ◌-◌, Bytes, List, [], ◌∷◌, ◌++◌, map, Bool, true, false, ◌&&◌, ◌||◌, ltb, leb,
  ◌==◌, if◌then◌else◌, length,
}
use mathlib.Core.List.{reverse}
use titan_distributed_kv.Common.Spaces.{wide_spaces, space_width}

-- Split by a separator of one byte
unfoldable pub split : ℕ → Bytes → List Bytes
split sep [] = [] ∷ []
split sep (c ∷ cs) = let rest = split sep cs in if c == sep then [] ∷ rest else onto c rest
  where
    onto : ℕ → List Bytes → List Bytes
    onto c [] = (c ∷ []) ∷ []
    onto c (w ∷ ws) = (c ∷ w) ∷ ws

-- A text without the white space that it starts with, behind a number of bytes to skip.
unfoldable pub trim_left : List Bytes → ℕ → Bytes → Bytes
unfolding space_width
trim_left wide k [] = []
trim_left wide (suc k) (c ∷ cs) = trim_left wide k cs
trim_left wide zero (c ∷ cs) = elim (space_width wide (c ∷ cs)) [
  | zero ↦ c ∷ cs
  | suc k ↦ trim_left wide k cs
]

-- TrimSpace: the white space of the end is that of the start of the reversed text.
unfoldable pub trim_space : Bytes → Bytes
unfolding trim_left
trim_space s = reverse (trim_left (map reverse wide_spaces) 0 (reverse (trim_left wide_spaces 0 s)))

nonempty : Bytes → List Bytes
nonempty [] = []
nonempty (c ∷ cs) = (c ∷ cs) ∷ []

-- Fields, behind a number of bytes to skip and the bytes read of a word
unfoldable pub fields_from : ℕ → Bytes → Bytes → List Bytes
unfolding space_width nonempty
fields_from k w [] = nonempty w
fields_from (suc k) w (c ∷ cs) = fields_from k w cs
fields_from zero w (c ∷ cs) = elim (space_width wide_spaces (c ∷ cs)) [
  | zero ↦ fields_from 0 (w ++ (c ∷ [])) cs
  | suc k ↦ nonempty w ++ fields_from k [] cs
]

unfoldable pub fields : Bytes → List Bytes
unfolding fields_from
fields s = fields_from 0 [] s

-- Join
unfoldable pub join : List Bytes → Bytes → Bytes
join [] sep = []
join (w ∷ []) sep = w
join (w ∷ v ∷ ws) sep = w ++ (sep ++ join (v ∷ ws) sep)

is_ascii : Bytes → Bool
is_ascii [] = true
is_ascii (c ∷ cs) = ltb c 128 && is_ascii cs

upper : ℕ → ℕ
upper c = if leb 97 c && leb c 122 then c - 32 else c

-- ToUpper; `unicode` is what it makes of a text that is not all ASCII.
unfoldable pub to_upper : (Bytes → Bytes) → Bytes → Bytes
unfolding is_ascii upper
to_upper unicode s = if is_ascii s then map upper s else unicode s
