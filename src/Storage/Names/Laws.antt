-- ===== src/Storage/Names/Laws.antt =====
-- Printing the name of a data file and scanning it gives its id back, so names differ when ids do.
use mathlib.Core.WellFounded.{Acc}
use mathlib.Core.Logic.{dif_pos, dif_neg}
use native.Mathlib.Decide.{dec_lt}
use native.Mathlib.Bridge.{le_prop}
use titan_distributed_kv.Common.{
  ℕ, ◌+◌, ◌*◌, ◌/◌, ◌%◌, ◌<◌, ◌≡◌, refl, [], ◌∷◌, Bytes, codes, true, some, arith, ap, ◌∙◌,
  bytes_key, lt→ltb,
}
use titan_distributed_kv.Storage.Codec.{word}
use titan_distributed_kv.Common.Spaces.{space_width}
use titan_distributed_kv.Storage.Names.{
  digits_onto, decimal, data_name, is_digit, digits_value, blank_width, skip_blanks, scan_u32,
  scan_name, lt_acc,
}

abbrev StartsDigit : Bytes → Type 0
StartsDigit [] = ⊥
StartsDigit (c ∷ _) = is_digit c ≡ true

digit_char : (d : ℕ) → d < 10 → is_digit (48 + d) ≡ true
unfolding is_digit
digit_char d h = ground arith

digits_value-digit :
    (acc d : ℕ) (rest : Bytes)
    → d < 10
    → digits_value acc ((48 + d) ∷ rest) ≡ digits_value (acc * 10 + d) rest
unfolding digits_value
digits_value-digit acc d rest h =
    rw (digit_char d h) (ap (λ (x : ℕ). digits_value (acc * 10 + x) rest) (omega arith))

digits_onto-StartsDigit :
    (n : ℕ) (w : Acc ◌<◌ n) (rest : Bytes) → StartsDigit (digits_onto n w rest)
unfolding digits_onto
digits_onto-StartsDigit n (Acc.intro _ smaller) rest = elim (dec_lt 9 n) [
  | yes h ↦
      rw (dif_pos (dec_lt 9 n) le_prop h)
        (digits_onto-StartsDigit (n / 10) (smaller (n / 10) (omega arith)) _)
  | no h ↦ rw (dif_neg (dec_lt 9 n) h) (digit_char n (omega arith))
]

digits_value-digits_onto :
    (n : ℕ) (w : Acc ◌<◌ n) (rest : Bytes)
    → digits_value 0 (digits_onto n w rest) ≡ digits_value n rest
unfolding digits_onto
digits_value-digits_onto n (Acc.intro _ smaller) rest = elim (dec_lt 9 n) [
  | yes h ↦ rw (dif_pos (dec_lt 9 n) le_prop h) (
      digits_value-digits_onto (n / 10) (smaller (n / 10) (omega arith)) ((48 + n % 10) ∷ rest)
      ∙ digits_value-digit (n / 10) (n % 10) rest (omega arith)
      ∙ ap (λ (x : ℕ). digits_value x rest) (omega arith))
  | no h ↦ rw (dif_neg (dec_lt 9 n) h) (
      digits_value-digit 0 n rest (omega arith) ∙ ap (λ (x : ℕ). digits_value x rest) (omega arith))
]

blank_width-StartsDigit : (cs : Bytes) → StartsDigit cs → blank_width cs ≡ 0
unfolding blank_width is_digit space_width
blank_width-StartsDigit [] h = refl
blank_width-StartsDigit (c ∷ cs) h = ground arith

skip_blanks-StartsDigit : (cs : Bytes) → StartsDigit cs → skip_blanks 0 cs ≡ cs
unfolding skip_blanks
skip_blanks-StartsDigit [] h = refl
skip_blanks-StartsDigit (c ∷ cs) h = rw (skip_blanks, blank_width-StartsDigit (c ∷ cs) h) refl

scan_u32-StartsDigit :
    (cs rest : Bytes) (n : ℕ)
    → StartsDigit cs
    → digits_value 0 cs ≡ (n, rest)
    → n < word
    → scan_u32 cs ≡ some (n, rest)
unfolding scan_u32
scan_u32-StartsDigit [] rest n h e lt = absurd h
scan_u32-StartsDigit (c ∷ cs) rest n h e lt = rw (e, h, lt→ltb n word lt)

digits_value-log : (n : ℕ) → digits_value n (codes ".log") ≡ (n, codes ".log")
unfolding digits_value is_digit
digits_value-log n = refl

decimal-StartsDigit : (n : ℕ) (rest : Bytes) → StartsDigit (decimal n rest)
decimal-StartsDigit n rest = unfold decimal in digits_onto-StartsDigit n (lt_acc n) rest

digits_value-decimal :
    (n : ℕ) (rest : Bytes) → digits_value 0 (decimal n rest) ≡ digits_value n rest
digits_value-decimal n rest = unfold decimal in digits_value-digits_onto n (lt_acc n) rest

scan_u32-decimal : (n : ℕ) → n < word → scan_u32 (decimal n (codes ".log")) ≡ some (n, codes ".log")
scan_u32-decimal n h =
    scan_u32-StartsDigit _ _ n (decimal-StartsDigit n _)
      (digits_value-decimal n (codes ".log") ∙ digits_value-log n) h

-- `Sscanf` with the pattern `data-%d.log` reads back the id that `Sprintf` printed, for every uint32.
pub scan_name-data_name : (id : ℕ) → id < word → scan_name (data_name id) ≡ some id
unfolding scan_name data_name
scan_name-data_name id h =
    rw (skip_blanks-StartsDigit (decimal id (codes ".log")) (decimal-StartsDigit id _))
      (rw (scan_u32-decimal id h))

pub data_name_inj : (i j : ℕ) → i < word → j < word → data_name i ≡ data_name j → i ≡ j
data_name_inj i j hi hj e = cc (scan_name-data_name i hi, scan_name-data_name j hj, ap scan_name e)
