-- ===== src/Storage/Names.antt =====
-- The names of data files: `fmt.Sprintf("data-%d.log", id)` and `fmt.Sscanf(name, "data-%d.log", &id)`
-- (storage/bitcask.go, storage/compaction.go), and the order in which `os.ReadDir` lists names.
pub mod Laws
pub mod Digits
use mathlib.Core.WellFounded.{Acc, WellFounded}
use mathlib.Core.Logic.{dite, dif_pos, dif_neg}
use native.Mathlib.Decide.{dec_lt}
use native.Mathlib.Bridge.{le_prop}
use titan_distributed_kv.Common.{
  ℕ, zero, suc, ◌+◌, ◌-◌, ◌*◌, ◌/◌, ◌%◌, ◌<◌, ◌≤◌, ◌≡◌, ◌≢◌, refl, List, [], ◌∷◌, ◌++◌,
  append_assoc, Bytes, codes, Bool, true, false, ◌&&◌, ◌||◌, Option, none, some, ltb, leb, ◌==◌,
  if◌then◌else◌, arith, ap, ◌∙◌, sym,
}
use titan_distributed_kv.Common.Spaces.{wide_spaces, space_width}
use titan_distributed_kv.Storage.Codec.{word}

Acc-below : (k n : ℕ) → n < k → Acc ◌<◌ n
Acc-below zero n h = elim h [ ]
Acc-below (suc k) n h = Acc.intro n (λ m hm. Acc-below k m (omega arith))

lt_acc : (n : ℕ) → Acc ◌<◌ n
unfolding Acc-below
lt_acc n = Acc-below (suc n) n (omega arith)

-- The decimal digits of `n`, in front of `rest`.
digits_onto : (n : ℕ) → Acc ◌<◌ n → Bytes → Bytes
digits_onto n (Acc.intro _ smaller) rest =
    dite (dec_lt 9 n)
      (λ h. digits_onto (n / 10) (smaller (n / 10) (omega arith)) ((48 + n % 10) ∷ rest))
      (λ _. (48 + n) ∷ rest)

-- `%d`
unfoldable pub decimal : ℕ → Bytes → Bytes
unfolding digits_onto lt_acc dec_lt
decimal n rest = digits_onto n (lt_acc n) rest

-- `fmt.Sprintf("data-%d.log", id)`
unfoldable pub data_name : ℕ → Bytes
unfolding decimal
data_name id = codes "data-" ++ decimal id (codes ".log")

is_digit : ℕ → Bool
is_digit c = leb b'0' c && leb c b'9'

-- The value of the longest run of digits in front, from `acc` on, and what follows it.
digits_value : ℕ → Bytes → ℕ × Bytes
digits_value acc [] = (acc, [])
digits_value acc (c ∷ cs) =
    if is_digit c then digits_value (acc * 10 + (c - 48)) cs else (acc, c ∷ cs)

-- The bytes of the white space that `Sscanf` skips in front of a number; a newline is an error to it, as all is that
-- is no digit.
blank_width : Bytes → ℕ
unfolding space_width
blank_width [] = 0
blank_width (c ∷ cs) = if c == 10 then 0 else space_width wide_spaces (c ∷ cs)

-- A text without the white space in front, behind a number of bytes to skip
skip_blanks : ℕ → Bytes → Bytes
unfolding blank_width
skip_blanks k [] = []
skip_blanks (suc k) (c ∷ cs) = skip_blanks k cs
skip_blanks zero (c ∷ cs) = elim (blank_width (c ∷ cs)) [ zero ↦ c ∷ cs | suc k ↦ skip_blanks k cs ]

-- `%d` into a uint32: at least one digit, and a value that fits.
scan_u32 : Bytes → Option (ℕ × Bytes)
scan_u32 [] = none
scan_u32 (c ∷ cs) =
    let (value, rest) = digits_value 0 (c ∷ cs) in
    if is_digit c && ltb value word then some (value, rest) else none

-- A literal part of the format: what follows it in the input.
match_literal : Bytes → Bytes → Option Bytes
match_literal [] cs = some cs
match_literal (p ∷ ps) [] = none
match_literal (p ∷ ps) (c ∷ cs) = if p == c then match_literal ps cs else none

scan_tail : Option (ℕ × Bytes) → Option ℕ
scan_tail none = none
scan_tail (some (id, cs)) = elim (match_literal (codes ".log") cs) [
  | none ↦ none
  | some _ ↦ some id
]

-- `fmt.Sscanf(name, "data-%d.log", &id)`; input behind the format is no error.
unfoldable pub scan_name : Bytes → Option ℕ
unfolding is_digit digits_value blank_width skip_blanks scan_u32 match_literal scan_tail
scan_name name = elim (match_literal (codes "data-") name) [
  | none ↦ none
  | some cs ↦ scan_tail (scan_u32 (skip_blanks 0 cs))
]

-- The order of `os.ReadDir`: names as strings, byte by byte.
unfoldable pub name_lt : Bytes → Bytes → Bool
name_lt [] [] = false
name_lt [] (_ ∷ _) = true
name_lt (_ ∷ _) [] = false
name_lt (a ∷ as') (b ∷ bs) = ltb a b || ((a == b) && name_lt as' bs)
