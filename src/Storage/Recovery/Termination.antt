-- ===== src/Storage/Recovery/Termination.antt =====
-- The reading loop ends on every input: the fuel of `read_data_file` is enough.
use titan_distributed_kv.Common.{
  ℕ, zero, suc, ◌<◌, ◌≤◌, ◌≡◌, ◌≢◌, refl, [], ◌∷◌, Bytes, length, arith, bytes_key, drop,
}
use titan_distributed_kv.Storage.Codec.{Read, got, at_eof, cut_short, read_u32, read_full}
use titan_distributed_kv.Storage.Disk.{stuck, Result, err}
use titan_distributed_kv.Storage.Exec.{KeyDir}
use titan_distributed_kv.Storage.Recovery.{read_records, read_data_file, first_read, require}

length-drop-le : (n : ℕ) (bs : Bytes) → length (drop n bs) ≤ length bs
length-drop-le zero bs = omega arith
length-drop-le (suc n) [] = omega arith
length-drop-le (suc n) (b ∷ bs) = omega (arith, length-drop-le n bs)

-- A read does not lengthen what is left; that of a uint32 shortens it.
read_full-shrinks :
    (n : ℕ) (bs chunk rest : Bytes) → read_full n bs ≡ got chunk rest → length rest ≤ length bs
unfolding read_full
read_full-shrinks zero bs chunk rest e = ground arith
read_full-shrinks (suc n) [] chunk rest e = absurd (cc)
read_full-shrinks (suc n) (b ∷ bs) chunk rest e = ground (arith, length-drop-le n bs)

read_u32-shrinks : (bs rest : Bytes) (n : ℕ) → read_u32 bs ≡ got n rest → length rest < length bs
unfolding read_u32
read_u32-shrinks [] rest n e = absurd (cc)
read_u32-shrinks (b ∷ bs) rest n e = ground (arith, length-drop-le 3 bs)

-- A result that is not the mark of a loop that was cut off.
abbrev Ends : Result KeyDir → Type 0
Ends r = r ≢ err stuck

first_read-Ends :
    (r : Read ℕ) (kd : KeyDir) (next : ℕ → Bytes → Result KeyDir)
    → ((n : ℕ) (rest : Bytes) → r ≡ got n rest → Ends (next n rest))
    → Ends (first_read r kd next)
unfolding first_read
first_read-Ends (got n rest) kd next h = h n rest refl
first_read-Ends at_eof kd next h = λ e. cc
first_read-Ends cut_short kd next h = λ e. cc

require-Ends :
    {A : Type 0} (r : Read A) (next : A → Bytes → Result KeyDir)
    → ((a : A) (rest : Bytes) → r ≡ got a rest → Ends (next a rest))
    → Ends (require r next)
unfolding require
require-Ends (got a rest) next h = h a rest refl
require-Ends at_eof next h = λ e. cc
require-Ends cut_short next h = λ e. cc

read_records-Ends :
    (fuel id offset : ℕ) (bytes : Bytes) (kd : KeyDir)
    → length bytes < fuel
    → Ends (read_records fuel id offset bytes kd)
unfolding read_records
read_records-Ends zero id offset bytes kd enough = absurd (omega arith)
read_records-Ends (suc fuel) id offset bytes kd enough =
    first_read-Ends (read_u32 bytes) kd _ λ ks r1 e1. require-Ends (read_u32 r1) _ λ vs r2 e2.
      require-Ends (read_full ks r2) _ λ key r3 e3. require-Ends (read_full vs r3) _ λ value r4 e4.
        read_records-Ends fuel id _ r4 _ (
          omega (
            arith,
            read_u32-shrinks bytes r1 ks e1,
            read_u32-shrinks r1 r2 vs e2,
            read_full-shrinks ks r2 key r3 e3,
            read_full-shrinks vs r3 value r4 e4,
          ))

-- On every content of a data file, the loop of `readDataFile` ends by itself: it reaches the end of
-- the file or an error of a read, and never runs out of the fuel of the model.
pub read_data_file-Ends :
    (id : ℕ) (bytes : Bytes) (kd : KeyDir) → read_data_file id bytes kd ≢ err stuck
unfolding read_data_file
read_data_file-Ends id bytes kd = read_records-Ends (suc (length bytes)) id 0 bytes kd (omega arith)
