-- ===== src/Storage/Recovery/Files.antt =====
-- A directory with the data files of the ids from some id on, each of which holds a log: what `recover` makes of it.
use titan_distributed_kv.Common.{
  ℕ, suc, ◌+◌, ◌<◌, ◌≤◌, ◌≡◌, ◌≢◌, refl, sym, ap, ◌∙◌, List, [], ◌∷◌, ◌++◌, Bytes, false, none,
  some, length, if◌then◌else◌, ltb, bytes_key, same, same_refl, same_ne, arith,
}
use titan_distributed_kv.Common.Maps
use titan_distributed_kv.Common.Maps.{lookup-cons, lookup-nil}
use titan_distributed_kv.Storage.Codec.{word}
use titan_distributed_kv.Storage.Names.{data_name}
use titan_distributed_kv.Storage.Names.Digits.{next_name_lt}
use titan_distributed_kv.Storage.Names.Laws.{scan_name-data_name, data_name_inj}
use titan_distributed_kv.Storage.Disk.{Node, file, Entries, ok, grow, sort_entries, insert_sorted}
use titan_distributed_kv.Storage.Disk.Laws.{
  insert_sorted-first, sort_entries-single, insert-apart, grow-apart, grow-single,
}
use titan_distributed_kv.Storage.Exec.{KeyDir}
use titan_distributed_kv.Storage.Recovery.{recover_entries, read_data_file}
use titan_distributed_kv.Storage.Recovery.Log.{
  Records, encode_all, replay, AllFit, read_records-encode_all,
}

-- The logs of the files from an id on, and the bytes of the file behind them
abbrev pub files : ℕ → List Records → Bytes → Entries
files i [] bytes = (data_name i, file bytes) ∷ []
files i (rs ∷ closed) bytes = (data_name i, file (encode_all rs)) ∷ files (suc i) closed bytes

-- The directory of keys that their `Put`s build
abbrev pub replays : ℕ → List Records → Records → KeyDir → KeyDir
replays i [] current kd = replay i 0 current kd
replays i (rs ∷ closed) current kd = replays (suc i) closed current (replay i 0 rs kd)

abbrev pub AllLogsFit : List Records → Type 0
AllLogsFit [] = Unit
AllLogsFit (rs ∷ closed) = AllFit rs × AllLogsFit closed

pub names_apart : (i j : ℕ) → i < j → j < word → data_name i ≢ data_name j
names_apart i j before fits e = omega (arith, data_name_inj i j (omega arith) fits e)

insert_first :
    (i : ℕ) (bytes more : Bytes) (closed : List Records)
    → suc i < 10
    → insert_sorted (data_name i) (file bytes) (files (suc i) closed more)
      ≡ (data_name i, file bytes) ∷ files (suc i) closed more
insert_first i bytes more [] small = insert_sorted-first _ _ _ _ _ (next_name_lt i small)
insert_first i bytes more (rs ∷ closed) small = insert_sorted-first _ _ _ _ _ (next_name_lt i small)

pub sort_entries-files :
    (i : ℕ) (closed : List Records) (bytes : Bytes)
    → i + length closed < 10
    → sort_entries (files i closed bytes) ≡ files i closed bytes
unfolding sort_entries
sort_entries-files i [] bytes small = sort_entries-single (data_name i) (file bytes)
sort_entries-files i (rs ∷ closed) bytes small =
    ap (insert_sorted (data_name i) (file (encode_all rs)))
      (sort_entries-files (suc i) closed bytes (omega arith))
    ∙ insert_first i (encode_all rs) bytes closed (omega arith)

at_zero : (i : ℕ) → i + 0 ≡ i
at_zero i = omega arith

at_suc : (i n : ℕ) → i + suc n ≡ suc i + n
at_suc i n = omega arith

-- `recover` reads one file; the highest id so far is not above its id.
recover_log :
    (i highest : ℕ) (rs : Records) (es : Entries) (kd : KeyDir)
    → i < word
    → highest ≤ i
    → AllFit rs
    → recover_entries ((data_name i, file (encode_all rs)) ∷ es) highest kd
      ≡ recover_entries es i (replay i 0 rs kd)
unfolding recover_entries read_data_file
recover_log i highest rs es kd fits low small =
    let top : (if ltb highest i then i else highest) ≡ i = ground arith in
    rw
      (
        scan_name-data_name i fits,
        read_records-encode_all rs (suc (length (encode_all rs))) i 0 kd small (omega arith),
        top,
      )
      refl

pub recover_entries-files :
    (i highest : ℕ) (closed : List Records) (current : Records) (kd : KeyDir)
    → i + length closed < word
    → highest ≤ i
    → AllLogsFit closed
    → AllFit current
    → recover_entries (files i closed (encode_all current)) highest kd
      ≡ ok (replays i closed current kd, i + length closed)
recover_entries-files i highest [] current kd fits low small now =
    recover_log i highest current [] kd (omega arith) low now
    ∙ (unfold recover_entries in ap (λ (n : ℕ). ok (replay i 0 current kd, n)) (omega arith))
recover_entries-files i highest (rs ∷ closed) current kd fits low (first, small) now =
    recover_log i highest rs (files (suc i) closed (encode_all current)) kd (omega arith) low first
    ∙ recover_entries-files (suc i) i closed current (replay i 0 rs kd) (omega arith) (omega arith)
        small now
    ∙ ap (λ (n : ℕ). ok (replays (suc i) closed current (replay i 0 rs kd), n)) (omega arith)

pub lookup-files :
    (i : ℕ) (closed : List Records) (bytes : Bytes)
    → i + length closed < word
    → Maps.lookup (data_name (i + length closed)) (files i closed bytes) ≡ some (file bytes)
lookup-files i [] bytes fits =
    ap (λ (n : ℕ). Maps.lookup (data_name n) (files i [] bytes)) (at_zero i)
    ∙ (rw (lookup-cons, same_refl (data_name i)) refl)
lookup-files i (rs ∷ closed) bytes fits =
    let away : same (data_name i) (data_name (i + suc (length closed))) ≡ false =
      same_ne (data_name i) (data_name (i + suc (length closed)))
        (names_apart i (i + suc (length closed)) (omega arith) fits) in
    ground (
      arith,
      lookup-cons (data_name (i + suc (length closed))) (data_name i) (file (encode_all rs))
          (files (suc i) closed bytes),
      ap (λ (n : ℕ). Maps.lookup (data_name n) (files (suc i) closed bytes))
          (at_suc i (length closed)),
      lookup-files (suc i) closed bytes (omega arith),
    )

-- No file has an id above the last one's.
pub lookup-files_above :
    (i j : ℕ) (closed : List Records) (bytes : Bytes)
    → i + length closed < j
    → j < word
    → Maps.lookup (data_name j) (files i closed bytes) ≡ none
lookup-files_above i j [] bytes above fits = ground (
  arith,
  lookup-cons (data_name j) (data_name i) (file bytes) [],
  lookup-nil {V = Node} (data_name j),
  same_ne (data_name i) (data_name j) (names_apart i j (omega arith) fits),
)
lookup-files_above i j (rs ∷ closed) bytes above fits = ground (
  arith,
  lookup-cons (data_name j) (data_name i) (file (encode_all rs)) (files (suc i) closed bytes),
  same_ne (data_name i) (data_name j) (names_apart i j (omega arith) fits),
  lookup-files_above (suc i) j closed bytes (omega arith) fits,
)

-- The next file, behind the current one
pub insert-files :
    (i j : ℕ) (closed : List Records) (current : Records)
    → j ≡ i + suc (length closed)
    → j < word
    → Maps.insert (data_name j) (file []) (files i closed (encode_all current))
      ≡ files i (closed ++ current ∷ []) []
unfolding Maps.insert
insert-files i j [] current is fits =
    insert-apart (data_name j) (data_name i) (file []) (file (encode_all current)) []
      (names_apart i j (omega arith) fits)
    ∙ ap (λ (n : ℕ). (data_name i, file (encode_all current)) ∷ (data_name n, file []) ∷ []) next
  where
    next : j ≡ suc i
    next = omega arith
insert-files i j (rs ∷ closed) current is fits =
    insert-apart (data_name j) (data_name i) (file []) (file (encode_all rs))
      (files (suc i) closed (encode_all current)) (names_apart i j (omega arith) fits)
    ∙ ap (λ m. (data_name i, file (encode_all rs)) ∷ m)
        (insert-files (suc i) j closed current (omega arith) fits)

-- Bytes behind those of the current file
pub grow-files :
    (i j : ℕ) (closed : List Records) (bytes more : Bytes)
    → j ≡ i + length closed
    → j < word
    → grow (data_name j) more (files i closed bytes) ≡ files i closed (bytes ++ more)
grow-files i j [] bytes more is fits =
    let here : i ≡ j = omega arith in
    ap (λ (n : ℕ). grow (data_name n) more (files i [] bytes)) (sym here)
    ∙ grow-single (data_name i) bytes more
grow-files i j (rs ∷ closed) bytes more is fits =
    grow-apart (data_name j) (data_name i) more (file (encode_all rs)) (files (suc i) closed bytes)
      (names_apart i j (omega arith) fits)
    ∙ ap (λ m. (data_name i, file (encode_all rs)) ∷ m)
        (grow-files (suc i) j closed bytes more (omega arith) fits)
