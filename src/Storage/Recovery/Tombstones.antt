-- ===== src/Storage/Recovery/Tombstones.antt =====
-- A tombstone is not a record that `readDataFile` can read: a directory with one cannot be opened.
use titan_distributed_kv.Common.{
  ℕ, zero, suc, ◌+◌, ◌<◌, ◌≡◌, refl, ap, ◌∙◌, sym, [], ◌∷◌, ◌++◌, append_assoc, append-nil, Bytes,
  Option, none, some, length, bytes_key, arith, Option-cases, inl, inr, subst, if◌then◌else◌, ltb,
  lt→ltb,
}
use titan_distributed_kv.Common.Maps
use titan_distributed_kv.Common.Maps.{lookup-cons, lookup-nil}
use titan_distributed_kv.Storage.Codec.{word, le32, read_full, read_u32-le32, read_full-append}
use titan_distributed_kv.Storage.Names.{data_name, scan_name}
use titan_distributed_kv.Storage.Names.Laws.{scan_name-data_name}
use titan_distributed_kv.Storage.Disk.{
  Entries, Node, file, directory, Error, Result, ok, err, content, sort_entries, read_dir,
  mkdir_all,
}
use titan_distributed_kv.Storage.Disk.Laws.{lookup-sort_entries, lookup-content}
use titan_distributed_kv.Storage.Exec.{RecordLocation, KeyDir, Store}
use titan_distributed_kv.Storage.Bitcask.{tombstone, delete, get}
use titan_distributed_kv.Storage.Bitcask.Healthy.{healthy, buried, write_tombstone-healthy}
use titan_distributed_kv.Storage.Bitcask.Writes.{buried-content}
use titan_distributed_kv.Storage.Bitcask.Steps.{IsValid, IsValid-as_healthy}
use titan_distributed_kv.Storage.Recovery.{
  read_records, read_data_file, require, recover_entries, recover_file, after_file, new_bitcask,
  Recovered,
}
use titan_distributed_kv.Storage.Recovery.Log.{
  Records, encode_all, replay, AllFit, read_records-append,
}

-- The bytes that `Delete` writes.
abbrev pub tombstone_record : Bytes → Bytes
tombstone_record key = le32 (length key) ++ (le32 tombstone ++ key)

abbrev pub Fails {ℓ} : {A : Type ℓ} → Result A → Type ℓ
Fails r = (e : Error) × (r ≡ err e)

tombstone_record-append :
    (key rest : Bytes)
    → tombstone_record key ++ rest ≡ le32 (length key) ++ (le32 tombstone ++ (key ++ rest))
tombstone_record-append key rest = simp append_assoc

pub read_full_beyond :
    (n : ℕ) (bs : Bytes) (next : Bytes → Bytes → Result KeyDir)
    → length bs < n
    → Fails (require (read_full n bs) next)
unfolding read_full require
read_full_beyond zero bs next h = absurd (omega arith)
read_full_beyond (suc n) [] next h = (_, refl)
read_full_beyond (suc n) (b ∷ bs) next h =
    rw (read_full, lt→ltb (length bs) n (omega arith)) (_, refl)

read_records-tombstone :
    (fuel id offset : ℕ) (key rest : Bytes) (kd : KeyDir)
    → length key < word
    → length rest < tombstone
    → Fails (read_records (suc fuel) id offset (tombstone_record key ++ rest) kd)
unfolding read_records
read_records-tombstone fuel id offset key rest kd fits short =
    rw
      (
        tombstone_record-append key rest,
        read_u32-le32 (length key) (le32 tombstone ++ (key ++ rest)) fits,
        read_u32-le32 tombstone (key ++ rest) (omega arith),
        read_full-append key rest,
      )
      (read_full_beyond tombstone rest _ short)

-- A log with a tombstone behind it, and less than 4 GiB behind that.
pub read_data_file-tombstone :
    (id : ℕ) (rs : Records) (key rest : Bytes) (kd : KeyDir)
    → AllFit rs
    → length key < word
    → length rest < tombstone
    → Fails (read_data_file id (encode_all rs ++ (tombstone_record key ++ rest)) kd)
unfolding read_data_file
read_data_file-tombstone id rs key rest kd all_fit fits short =
    let (fuel, enough, e) =
      read_records-append rs (suc (length (encode_all rs ++ (tombstone_record key ++ rest)))) id 0
        (tombstone_record key ++ rest) kd all_fit (omega arith) in
    rw e (go fuel enough)
  where
    go :
        (fuel : ℕ)
        → length (tombstone_record key ++ rest) < fuel
        → Fails (
            read_records fuel id
              (0 + length (encode_all rs))
              (tombstone_record key ++ rest)
              (replay id 0 rs kd))
    go zero h = absurd (omega arith)
    go (suc fuel) h = read_records-tombstone fuel id _ key rest _ fits short

recover_file-Fails :
    (o : Option ℕ) (bytes : Bytes) (highest : ℕ) (kd : KeyDir) (next : ℕ → KeyDir → Recovered)
    → ((h : ℕ) (d : KeyDir) → Fails (next h d))
    → Fails (recover_file o bytes highest kd next)
unfolding recover_file
recover_file-Fails none bytes highest kd next h = h highest kd
recover_file-Fails (some id) bytes highest kd next h = go (read_data_file id bytes kd)
  where
    go : (r : Result KeyDir) → Fails (after_file r (next (if ltb highest id then id else highest)))
    go (ok d) = unfold after_file in h _ d
    go (err e) = unfold after_file in (_, refl)

recover_file-unreadable :
    (id : ℕ) (bytes : Bytes) (highest : ℕ) (kd : KeyDir) (next : ℕ → KeyDir → Recovered)
    → Fails (read_data_file id bytes kd)
    → Fails (recover_file (some id) bytes highest kd next)
unfolding recover_file
recover_file-unreadable id bytes highest kd next (e, p) = rw p (_, refl)

-- One data file that cannot be read makes `recover` fail.
recover_entries-Fails :
    (es : Entries) (highest : ℕ) (kd : KeyDir) (name bytes : Bytes) (id : ℕ)
    → Maps.lookup name es ≡ some (file bytes)
    → scan_name name ≡ some id
    → ((d : KeyDir) → Fails (read_data_file id bytes d))
    → Fails (recover_entries es highest kd)
unfolding recover_entries
recover_entries-Fails [] highest kd name bytes id found scanned bad =
    absurd (ground (arith, lookup-nil {V = Node} name))
recover_entries-Fails ((n, directory) ∷ es) highest kd name bytes id found scanned bad =
    recover_entries-Fails es highest kd name bytes id
      (ground (arith, lookup-cons name n directory es)) scanned bad
recover_entries-Fails ((n, file bs) ∷ es) highest kd name bytes id found scanned bad =
    elim (bytes_key.dec n name) [
      | yes p ↦
          let same_bytes : bs ≡ bytes = ground (arith, lookup-cons name n (file bs) es) in
          rw (ap scan_name p ∙ scanned, same_bytes)
            (recover_file-unreadable id bytes highest kd (recover_entries es) (bad kd))
      | no q ↦ recover_file-Fails (scan_name n) bs highest kd (recover_entries es) (λ h d.
          recover_entries-Fails es h d name bytes id
            (ground (arith, lookup-cons name n (file bs) es)) scanned bad)
    ]

pub new_bitcask-Fails :
    (m : Entries) (name bytes : Bytes) (id : ℕ)
    → Maps.lookup name m ≡ some (file bytes)
    → scan_name name ≡ some id
    → ((d : KeyDir) → Fails (read_data_file id bytes d))
    → Fails (new_bitcask (record { entries = m; faults = [] })).0
unfolding new_bitcask read_dir mkdir_all
new_bitcask-Fails m name bytes id found scanned bad =
    let (e, p) =
      recover_entries-Fails (sort_entries m) 0 [] name bytes id (lookup-sort_entries name m ∙ found)
        scanned bad in
    rw (new_bitcask, p) (_, refl)

delete-healthy-Fails :
    (kd : KeyDir) (id : ℕ) (m : Entries) (offset limit : ℕ) (loc : RecordLocation) (rs : Records)
    (key : Bytes)
    → id < word
    → Maps.lookup key kd ≡ some loc
    → content (data_name id) m ≡ some (encode_all rs)
    → AllFit rs
    → length key < word
    → ((delete key (healthy kd id m offset limit)).0 ≡ ok tt)
      × Fails (new_bitcask (delete key (healthy kd id m offset limit)).1.disk).0
unfolding delete
delete-healthy-Fails kd id m offset limit loc rs key id_fits found log all_fit fits =
    rw (delete, found, write_tombstone-healthy kd id m offset limit key)
      (
        refl,
        new_bitcask-Fails (buried id key m) (data_name id) (encode_all rs ++ tombstone_record key)
            id (lookup-content (data_name id) _ _ (buried-content id m (encode_all rs) log key))
            (scan_name-data_name id id_fits)
            (λ d.
              rw (ap (λ t. encode_all rs ++ t) (sym (append-nil (tombstone_record key))))
                (read_data_file-tombstone id rs key [] d all_fit fits (omega arith))),
      )

-- On a valid engine with no faults ahead whose current file is a log of `Put`s with sizes that fit a
-- uint32, `Delete` of a key that `Get` finds succeeds, and opening an engine on the directory that it
-- leaves returns an error.
pub restart-delete :
    (s : Store) (rs : Records) (key value : Bytes)
    → IsValid s
    → get key s ≡ ok value
    → content (data_name s.bitcask.current_file_id) s.disk.entries ≡ some (encode_all rs)
    → AllFit rs
    → ((delete key s).0 ≡ ok tt) × Fails (new_bitcask (delete key s).1.disk).0
unfolding get
restart-delete s rs key value v found log all_fit =
    elim (Option-cases (Maps.lookup key s.bitcask.key_dir)) [
      | inl absent ↦ absurd (ground arith)
      | inr (loc, e) ↦
          subst (λ t. ((delete key t).0 ≡ ok tt) × Fails (new_bitcask (delete key t).1.disk).0)
            (IsValid-as_healthy s v)
            (delete-healthy-Fails _ _ _ _ s.bitcask.max_file_size loc rs key v.sound.id_fits e log
              all_fit (v.sound.located key loc e).1.key_fits)
    ]
