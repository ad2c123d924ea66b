-- ===== src/Common/Spaces.antt =====
-- The white space of Go, in UTF-8: `unicode.IsSpace`, which is `isSpace` of package fmt as well.
use titan_distributed_kv.Common.{
  ℕ, Bytes, List, [], ◌∷◌, Bool, true, false, ◌&&◌, ◌||◌, ltb, leb, ◌==◌, if◌then◌else◌, length,
}

-- Tab, newline, vertical tab, form feed, carriage return and the space
abbrev pub is_ascii_space : ℕ → Bool
is_ascii_space c = (leb 9 c && leb c 13) || (c == 32)

-- The white space of Unicode beyond ASCII, in UTF-8: U+0085, U+00A0, U+1680, U+2000 to U+200A, U+2028, U+2029,
-- U+202F, U+205F and U+3000.
abbrev pub wide_spaces : List Bytes
wide_spaces =
    (194 ∷ 133 ∷ [])
    ∷ (194 ∷ 160 ∷ [])
    ∷ (225 ∷ 154 ∷ 128 ∷ [])
    ∷ (226 ∷ 128 ∷ 128 ∷ [])
    ∷ (226 ∷ 128 ∷ 129 ∷ [])
    ∷ (226 ∷ 128 ∷ 130 ∷ [])
    ∷ (226 ∷ 128 ∷ 131 ∷ [])
    ∷ (226 ∷ 128 ∷ 132 ∷ [])
    ∷ (226 ∷ 128 ∷ 133 ∷ [])
    ∷ (226 ∷ 128 ∷ 134 ∷ [])
    ∷ (226 ∷ 128 ∷ 135 ∷ [])
    ∷ (226 ∷ 128 ∷ 136 ∷ [])
    ∷ (226 ∷ 128 ∷ 137 ∷ [])
    ∷ (226 ∷ 128 ∷ 138 ∷ [])
    ∷ (226 ∷ 128 ∷ 168 ∷ [])
    ∷ (226 ∷ 128 ∷ 169 ∷ [])
    ∷ (226 ∷ 128 ∷ 175 ∷ [])
    ∷ (226 ∷ 129 ∷ 159 ∷ [])
    ∷ (227 ∷ 128 ∷ 128 ∷ [])
    ∷ []

starts_with : Bytes → Bytes → Bool
starts_with s [] = true
starts_with [] (p ∷ ps) = false
starts_with (c ∷ cs) (p ∷ ps) = (c == p) && starts_with cs ps

wide_width : List Bytes → Bytes → ℕ
unfolding starts_with
wide_width [] s = 0
wide_width (p ∷ ps) s = let rest = wide_width ps s in if starts_with s p then length p else rest

-- The number of bytes of the white space that a text starts with, 0 when it starts with none. `wide` are the
-- spaces beyond ASCII.
unfoldable pub space_width : List Bytes → Bytes → ℕ
unfolding wide_width
space_width wide [] = 0
space_width wide (c ∷ cs) =
    if ltb c 128 then if is_ascii_space c then 1 else 0 else wide_width wide (c ∷ cs)
