-- ===== src/Storage/Names/Digits.antt =====
-- The names of the data files of ids below ten, in the order of `os.ReadDir`.
use mathlib.Core.WellFounded.{Acc}
use mathlib.Core.Logic.{dif_neg}
use native.Mathlib.Decide.{dec_lt}
use titan_distributed_kv.Common.{
  ℕ, suc, ◌+◌, ◌<◌, ◌≡◌, refl, ap, ◌∷◌, ◌++◌, Bytes, codes, false, arith,
}
use titan_distributed_kv.Storage.Names.{digits_onto, decimal, data_name, name_lt, lt_acc}

digits_onto-digit :
    (n : ℕ) (w : Acc ◌<◌ n) (rest : Bytes) → n < 10 → digits_onto n w rest ≡ (48 + n) ∷ rest
unfolding digits_onto
digits_onto-digit n (Acc.intro _ smaller) rest small = rw (dif_neg (dec_lt 9 n) (omega arith)) refl

digit_name : (i : ℕ) → i < 10 → data_name i ≡ codes "data-" ++ ((48 + i) ∷ codes ".log")
unfolding data_name decimal
digit_name i small =
    ap (λ t. codes "data-" ++ t) (digits_onto-digit i (lt_acc i) (codes ".log") small)

-- The name of an id does not stand before that of the id below it.
pub next_name_lt : (i : ℕ) → suc i < 10 → name_lt (data_name (suc i)) (data_name i) ≡ false
unfolding name_lt
next_name_lt i small = rw (digit_name (suc i) small, digit_name i (omega arith)) (ground arith)
