-- ===== src/Storage/Recovery/Rotated.antt =====
-- An engine that is opened again after `Put`s, through up to nine rotations of its file, is the engine that was
-- closed.
use titan_distributed_kv.Common.{
  ℕ, ◌+◌, ◌<◌, ◌≡◌, refl, sym, ap, subst, ◌∙◌, inl, inr, List, [], ◌∷◌, ◌++◌, Bytes, none, some,
  length, bytes_key, arith, ltb, Bool-cases, length-append,
}
use titan_distributed_kv.Common.Maps
use titan_distributed_kv.Storage.Codec.{word}
use titan_distributed_kv.Storage.Names.{data_name}
use titan_distributed_kv.Storage.Disk.{file, ok, read_dir, mkdir_all}
use titan_distributed_kv.Storage.Exec.{Bitcask, Store}
use titan_distributed_kv.Storage.Bitcask.{default_max_file_size}
use titan_distributed_kv.Storage.Bitcask.Healthy.{open_current_file-healthy}
use titan_distributed_kv.Storage.Recovery.{new_bitcask, recover_entries}
use titan_distributed_kv.Storage.Recovery.Log.{Records, encode_all, replay, AllFit}
use titan_distributed_kv.Storage.Recovery.Restart.{puts, empty_directory, new_bitcask-empty}
use titan_distributed_kv.Storage.Recovery.Files.{
  files, replays, AllLogsFit, sort_entries-files, recover_entries-files, lookup-files,
}
use titan_distributed_kv.Storage.Recovery.Layout.{layout, put-same_file, put-next_file}

AllFit-snoc :
    (rs : Records) (key value : Bytes)
    → 8 + length key + length value < word
    → AllFit rs
    → AllFit (rs ++ (key, value) ∷ [])
AllFit-snoc [] key value fit h = (fit, tt)
AllFit-snoc ((k, v) ∷ rs) key value fit (first, h) = (first, AllFit-snoc rs key value fit h)

AllLogsFit-snoc :
    (closed : List Records) (rs : Records)
    → AllFit rs
    → AllLogsFit closed
    → AllLogsFit (closed ++ rs ∷ [])
AllLogsFit-snoc [] rs fit h = (fit, tt)
AllLogsFit-snoc (log ∷ closed) rs fit (first, h) = (first, AllLogsFit-snoc closed rs fit h)

-- The logs that `Put`s lead to
record Laid (limit : ℕ) (s : Store) : Type 0 where
  pub closed : List Records
  pub current : Records
  pub is : s ≡ layout limit closed current
  pub closed_fit : AllLogsFit closed
  pub current_fits : AllFit current

puts-Laid :
    (limit : ℕ) (rs : Records) (closed : List Records) (current : Records)
    → length closed + length rs < word
    → AllLogsFit closed
    → AllFit current
    → AllFit rs
    → Laid limit (puts rs (layout limit closed current)).1
unfolding puts
puts-Laid limit [] closed current few closed_fit current_fits fits = record {
  closed = closed;
  current = current;
  is = refl;
  closed_fit = closed_fit;
  current_fits = current_fits;
}
puts-Laid limit ((key, value) ∷ rs) closed current few closed_fit current_fits (fit, fits) =
    elim (Bool-cases (ltb limit (length (encode_all current)))) [
      | inl full ↦ rw (put-next_file limit closed current key value (omega arith) full) (
          puts-Laid limit rs (closed ++ current ∷ []) ((key, value) ∷ [])
            (omega (arith, length-append closed (current ∷ [])))
            (AllLogsFit-snoc closed current current_fits closed_fit) (fit, tt) fits)
      | inr room ↦ rw (put-same_file limit closed current key value (omega arith) room) (
          puts-Laid limit rs closed (current ++ (key, value) ∷ []) (omega arith) closed_fit
            (AllFit-snoc current key value fit current_fits) fits)
    ]

abbrev recovered : List Records → Records → Bitcask
recovered closed current = record {
  key_dir = replays 0 closed current [];
  current_file_id = length closed;
  current_file = none;
  current_offset = 0;
  max_file_size = default_max_file_size;
}

from_zero : (n : ℕ) → 0 + n ≡ n
from_zero n = omega arith

recover_entries-layout :
    (closed : List Records) (current : Records)
    → length closed < word
    → AllLogsFit closed
    → AllFit current
    → recover_entries (files 0 closed (encode_all current)) 0 []
      ≡ ok (replays 0 closed current [], length closed)
recover_entries-layout closed current few closed_fit current_fits =
    recover_entries-files 0 0 closed current [] (omega arith) (omega arith) closed_fit current_fits
    ∙ ap (λ (n : ℕ). ok (replays 0 closed current [], n)) (from_zero (length closed))

lookup-layout :
    (closed : List Records) (bytes : Bytes)
    → length closed < word
    → Maps.lookup (data_name (length closed)) (files 0 closed bytes) ≡ some (file bytes)
lookup-layout closed bytes few =
    ap (λ (n : ℕ). Maps.lookup (data_name n) (files 0 closed bytes))
      (sym (from_zero (length closed)))
    ∙ lookup-files 0 closed bytes (omega arith)

new_bitcask-layout :
    (limit : ℕ) (closed : List Records) (current : Records)
    → length closed < 10
    → AllLogsFit closed
    → AllFit current
    → new_bitcask (layout limit closed current).disk
      ≡ (ok tt, layout default_max_file_size closed current)
unfolding new_bitcask read_dir mkdir_all
new_bitcask-layout limit closed current few closed_fit current_fits =
    rw
      (
        new_bitcask,
        sort_entries-files 0 closed (encode_all current) (omega arith),
        recover_entries-layout closed current (omega arith) closed_fit current_fits,
        open_current_file-healthy (recovered closed current) (files 0 closed (encode_all current))
            (some (file (encode_all current)))
            (lookup-layout closed (encode_all current) (omega arith)) (λ e. cc e),
      )
      refl

-- An engine with another `maxFileSize`
abbrev pub with_limit : ℕ → Store → Store
with_limit limit s = record s { bitcask = record s.bitcask { max_file_size = limit } }

-- Opening the engine again gives it back, with the limit of NewBitcask.
abbrev Reopens : Store → Type 0
Reopens s = new_bitcask s.disk ≡ (ok tt, with_limit default_max_file_size s)

Laid-Reopens : (limit : ℕ) (s : Store) → Laid limit s → s.bitcask.current_file_id < 10 → Reopens s
Laid-Reopens limit s h small = subst Reopens (sym h.is) (
    new_bitcask-layout limit h.closed h.current
      (subst (λ t. t.bitcask.current_file_id < 10) h.is small) h.closed_fit h.current_fits)

opened_empty : (limit : ℕ) → with_limit limit (new_bitcask empty_directory).1 ≡ layout limit [] []
unfolding encode_all replay
opened_empty limit = ap (λ r. with_limit limit r.1) new_bitcask-empty

-- Open an engine on an empty directory, with any `maxFileSize`, and `Put` fewer than 2^32 records of sizes that
-- fit a uint32, so that its current file's id is below ten. Open an engine on the directory again: this
-- succeeds, and gives the same engine, with the same directory of keys, but for the `maxFileSize` of NewBitcask.
pub restart-rotated :
    (limit : ℕ) (rs : Records)
    → AllFit rs
    → length rs < word
    → (puts rs (with_limit limit (new_bitcask empty_directory).1)).1.bitcask.current_file_id < 10
    → let s = (puts rs (with_limit limit (new_bitcask empty_directory).1)).1 in
      new_bitcask s.disk ≡ (ok tt, with_limit default_max_file_size s)
restart-rotated limit rs fits few =
    subst (λ t. (puts rs t).1.bitcask.current_file_id < 10 → Reopens (puts rs t).1)
      (sym (opened_empty limit))
      (Laid-Reopens limit (puts rs (layout limit [] [])).1
        (puts-Laid limit rs [] [] (omega arith) tt tt fits))
