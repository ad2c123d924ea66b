-- ===== src/Storage/Codec.antt =====
-- The bytes of a record of a data file: `binary.Write` and `binary.Read` of a uint32 in little-endian
-- order, `io.ReadFull`, and the layout that `Put` and `readDataFile` (storage/bitcask.go) agree on.
use titan_distributed_kv.Common.{
  ℕ, zero, suc, ◌+◌, ◌*◌, ◌/◌, ◌%◌, ◌^◌, ◌<◌, ◌≡◌, refl, [], ◌∷◌, ◌++◌, Bytes, length, take, drop,
  length-append, take-length-append, drop-length-append, ltb, if◌then◌else◌, arith, ap, ◌∙◌,
}

-- What a read returns: a value with the bytes behind it, `io.EOF` before the first byte, or
-- `io.ErrUnexpectedEOF` in the middle.
pub data Read {ℓ} (A : Type ℓ) : Type ℓ where
  got : A → Bytes → Read A
  at_eof : Read A
  cut_short : Read A

-- `io.ReadFull(file, buf)` with `len(buf) == n`, at the bytes from the file's position on.
unfoldable pub read_full : ℕ → Bytes → Read Bytes
read_full zero bs = got [] bs
read_full (suc n) [] = at_eof
read_full (suc n) (b ∷ bs) =
    if ltb (length bs) n then cut_short else got (b ∷ take n bs) (drop n bs)

-- `binary.Write(file, binary.LittleEndian, uint32(n))`
unfoldable pub le32 : ℕ → Bytes
le32 n = n % 256 ∷ n / 256 % 256 ∷ n / 65536 % 256 ∷ n / 16777216 % 256 ∷ []

-- The uint32 that four bytes stand for.
unfoldable pub from_le32 : Bytes → ℕ
from_le32 (a ∷ b ∷ c ∷ d ∷ _) = a + b * 256 + c * 65536 + d * 16777216
from_le32 _ = 0

-- `binary.Read(file, binary.LittleEndian, &n)` for a uint32 `n`
unfoldable pub read_u32 : Bytes → Read ℕ
unfolding read_full from_le32
read_u32 bs = elim (read_full 4 bs) [
  | got chunk rest ↦ got (from_le32 chunk) rest
  | at_eof ↦ at_eof
  | cut_short ↦ cut_short
]

abbrev pub word : ℕ
word = 2 ^ 32

-- A record as `Put` writes it: both sizes, the key, the value.
unfoldable pub encode : Bytes → Bytes → Bytes
encode key value = le32 (length key) ++ (le32 (length value) ++ (key ++ value))

pub length-le32 : (n : ℕ) → length (le32 n) ≡ 4
unfolding le32
length-le32 n = refl

pub length-encode : (key value : Bytes) → length (encode key value) ≡ 8 + length key + length value
unfolding encode
length-encode key value = omega (
  arith,
  length-append (le32 (length key)) (le32 (length value) ++ (key ++ value)),
  length-append (le32 (length value)) (key ++ value),
  length-append key value,
  length-le32 (length key),
  length-le32 (length value),
)

-- Reading as many bytes as a block has, where the block stands, gives the block.
pub read_full-append : (xs ys : Bytes) → read_full (length xs) (xs ++ ys) ≡ got xs ys
unfolding read_full
read_full-append [] ys = refl
read_full-append (x ∷ xs) ys =
    ground (arith, length-append xs ys, take-length-append xs ys, drop-length-append xs ys)

read_u32-four :
    (a b c d : ℕ) (rest : Bytes)
    → read_u32 (a ∷ b ∷ c ∷ d ∷ rest) ≡ got (a + b * 256 + c * 65536 + d * 16777216) rest
unfolding read_u32
read_u32-four a b c d rest = ground arith

-- A uint32 is read back as it was written.
pub read_u32-le32 : (n : ℕ) (rest : Bytes) → n < word → read_u32 (le32 n ++ rest) ≡ got n rest
unfolding le32
read_u32-le32 n rest h = read_u32-four _ _ _ _ rest ∙ ap (λ (m : ℕ). got m rest) (omega arith)
