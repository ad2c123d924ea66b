-- ===== src/Storage/Bitcask/Faults.antt =====
-- `Put` and `Delete` when calls of the operating system fail, at any point.
use titan_distributed_kv.Common.{
  ◌+◌, ◌%◌, ◌≡◌, refl, ap, ◌∙◌, sym, inl, inr, Bytes, Bool, true, false, Option, none, some, String,
  bytes_key, Option-cases, ltb,
}
use titan_distributed_kv.Common.Maps
use titan_distributed_kv.Common.Maps.{lookup-insert}
use titan_distributed_kv.Storage.Codec.{word}
use titan_distributed_kv.Storage.Names.{data_name}
use titan_distributed_kv.Storage.Disk.{Disk, Handle, Error, Result, ok, err, open_append, stat_size}
use titan_distributed_kv.Storage.Exec.{
  RecordLocation, Bitcask, Store, M, ◌>>=◌, ◌>>◌, continue, fail, gets, modify, on_disk, wrapping,
  when,
}
use titan_distributed_kv.Storage.Bitcask.{
  get, put, delete, rotate_file, write_record, write_tombstone, open_current_file, close_current,
  close_handle, on_current, on_handle, key_not_found, write_current, sync_current,
}
use titan_distributed_kv.Storage.Bitcask.Invariant.{
  Located, Extends, Extends-refl, Extends-trans, Located-Extends, read_location-Located,
}
use titan_distributed_kv.Storage.Disk.Extends.{
  append-Extends, sync-Extends, stat_size-Extends, open_append-Extends,
}

-- The same directory of keys, and files that have at most grown.
pub record Kept (s t : Store) : Type 0 where
  pub same_dir : t.bitcask.key_dir ≡ s.bitcask.key_dir
  pub files : Extends s.disk.entries t.disk.entries

-- `m` leaves what was readable, whether it fails or not; or at least if it fails.
record Keeps {A : Type 0} (m : M A) : Type 0 where
  at : (s : Store) → Kept s (m s).1

record KeepsIfErr {A : Type 0} (m : M A) : Type 0 where
  at : (s : Store) (e : Error) → (m s).0 ≡ err e → Kept s (m s).1

Kept-refl : (s : Store) → Kept s s
Kept-refl s = record { same_dir = refl; files = Extends-refl s.disk.entries }

Kept-trans : (s t u : Store) → Kept s t → Kept t u → Kept s u
Kept-trans s t u p q = record {
  same_dir = q.same_dir ∙ p.same_dir;
  files = Extends-trans s.disk.entries t.disk.entries u.disk.entries p.files q.files;
}

Keeps→KeepsIfErr : {A : Type 0} (m : M A) → Keeps m → KeepsIfErr m
Keeps→KeepsIfErr m k = record { at = λ s e h. k.at s }

Keeps-bind :
    {A B : Type 0} (m : M A) (f : A → M B) → Keeps m → ((a : A) → Keeps (f a)) → Keeps (m >>= f)
Keeps-bind {A} {B} m f km kf = record { at = λ s. go s (m s) (km.at s) }
  where
    go : (s : Store) (r : Result A × Store) → Kept s r.1 → Kept s (continue r f).1
    go s (ok a, t) k = Kept-trans s t _ k ((kf a).at t)
    go s (err e, t) k = k

KeepsIfErr-bind :
    {A B : Type 0} (m : M A) (f : A → M B)
    → Keeps m
    → ((a : A) → KeepsIfErr (f a))
    → KeepsIfErr (m >>= f)
KeepsIfErr-bind {A} {B} m f km kf = record { at = λ s e h. go s (m s) (km.at s) e h }
  where
    go :
        (s : Store) (r : Result A × Store)
        → Kept s r.1
        → (e : Error) → (continue r f).0 ≡ err e
        → Kept s (continue r f).1
    go s (ok a, t) k e h = Kept-trans s t _ k ((kf a).at t e h)
    go s (err e', t) k e h = k

KeepsIfErr-modify : (f : Bitcask → Bitcask) → KeepsIfErr (modify f)
KeepsIfErr-modify f = record { at = λ s e h. absurd (cc) }

Keeps-modify :
    (f : Bitcask → Bitcask) → ((b : Bitcask) → (f b).key_dir ≡ b.key_dir) → Keeps (modify f)
Keeps-modify f h = record {
  at = λ s. record { same_dir = h s.bitcask; files = Extends-refl s.disk.entries };
}

Keeps-gets : {A : Type 0} (f : Bitcask → A) → Keeps (gets f)
Keeps-gets f = record { at = λ s. Kept-refl s }

Keeps-on_disk :
    {A : Type 0} (f : Disk → Result A × Disk)
    → ((d : Disk) → Extends d.entries (f d).1.entries)
    → Keeps (on_disk f)
Keeps-on_disk f h = record { at = λ s. record { same_dir = refl; files = h s.disk } }

Keeps-wrapping : {A : Type 0} (text : String) (m : M A) → Keeps m → Keeps (wrapping text m)
Keeps-wrapping text m k = record { at = λ s. k.at s }

Keeps-when : (b : Bool) (m : M (Unit {0})) → Keeps m → Keeps (when b m)
Keeps-when true m k = k
Keeps-when false m k = record { at = λ s. Kept-refl s }

Keeps-on_current :
    (f : Handle → Disk → Result (Unit {0}) × Disk)
    → ((h : Handle) (d : Disk) → Extends d.entries (f h d).1.entries)
    → Keeps (on_current f)
unfolding on_current
Keeps-on_current f k = record { at = λ s. go s.bitcask.current_file s }
  where
    go : (o : Option Handle) (s : Store) → Kept s (on_handle o f s).1
    go none s = Kept-refl s
    go (some h) s = (Keeps-on_disk (f h) (k h)).at s

write_current-Keeps : (bytes : Bytes) → Keeps (write_current bytes)
unfolding write_current
write_current-Keeps bytes = Keeps-on_current _ (λ h d. append-Extends h bytes d)

sync_current-Keeps : Keeps sync_current
unfolding sync_current
sync_current-Keeps = Keeps-on_current _ sync-Extends

open_current_file-Keeps : Keeps open_current_file
unfolding open_current_file
open_current_file-Keeps = Keeps-bind _ _ (Keeps-gets (λ b. b.current_file_id)) λ id.
    Keeps-bind _ _ (Keeps-on_disk (open_append (data_name id)) (open_append-Extends (data_name id)))
      λ h. Keeps-bind _ _ (Keeps-on_disk (stat_size h) (stat_size-Extends h)) λ size.
        Keeps-modify (λ b. record b { current_file = some h; current_offset = size }) (λ b. refl)

close_current-Keeps : Keeps close_current
unfolding close_current
close_current-Keeps =
    Keeps-modify (λ b. record b { current_file = close_handle b.current_file }) (λ b. refl)

rotate_file-Keeps : Keeps rotate_file
unfolding rotate_file
rotate_file-Keeps = Keeps-bind _ _ close_current-Keeps λ _.
    Keeps-bind _ _
      (Keeps-modify (λ b. record b { current_file_id = (b.current_file_id + 1) % word })
        (λ b. refl))
      λ _. open_current_file-Keeps

KeepsIfErr-write :
    (text : String) (bytes : Bytes) (k : M (Unit {0}))
    → KeepsIfErr k
    → KeepsIfErr (wrapping text (write_current bytes) >> k)
KeepsIfErr-write text bytes k h =
    KeepsIfErr-bind _ _ (Keeps-wrapping text _ (write_current-Keeps bytes)) (λ _. h)

KeepsIfErr-sync_modify :
    (text : String) (f : Bitcask → Bitcask) → KeepsIfErr (wrapping text sync_current >> modify f)
KeepsIfErr-sync_modify text f =
    KeepsIfErr-bind _ _ (Keeps-wrapping text _ sync_current-Keeps) (λ _. KeepsIfErr-modify f)

write_record-KeepsIfErr : (key value : Bytes) → KeepsIfErr (write_record key value)
unfolding write_record
write_record-KeepsIfErr key value =
    KeepsIfErr-bind _ _ (Keeps-gets (λ b. b.current_offset)) λ offset. KeepsIfErr-write _ _ _ (
      KeepsIfErr-write _ _ _
        (KeepsIfErr-write _ _ _ (KeepsIfErr-write _ _ _ (KeepsIfErr-sync_modify _ _))))

write_tombstone-KeepsIfErr : (key : Bytes) → KeepsIfErr (write_tombstone key)
unfolding write_tombstone
write_tombstone-KeepsIfErr key =
    KeepsIfErr-write _ _ _
      (KeepsIfErr-write _ _ _ (KeepsIfErr-write _ _ _ (KeepsIfErr-sync_modify _ _)))

put-KeepsIfErr : (key value : Bytes) → KeepsIfErr (put key value)
unfolding put
put-KeepsIfErr key value =
    KeepsIfErr-bind _ _ (Keeps-gets (λ b. ltb b.max_file_size b.current_offset)) λ full.
      KeepsIfErr-bind _ _ (Keeps-when full _ rotate_file-Keeps)
        λ _. write_record-KeepsIfErr key value

delete-KeepsIfErr : (key : Bytes) → KeepsIfErr (delete key)
unfolding delete
delete-KeepsIfErr key = KeepsIfErr-bind _ _ (Keeps-gets (λ b. Maps.lookup key b.key_dir)) go
  where
    go :
        (o : Option RecordLocation)
        → KeepsIfErr {A = Unit {0}}
            (elim o [ none ↦ fail key_not_found | some _ ↦ write_tombstone key ])
    go none = record { at = λ s e h. Kept-refl s }
    go (some _) = write_tombstone-KeepsIfErr key

-- Every key of the directory stands where its location says.
abbrev pub IsReadable : Store → Type 0
IsReadable s =
    (key : Bytes) (loc : RecordLocation)
    → Maps.lookup key s.bitcask.key_dir ≡ some loc
    → (value : Bytes) × Located s.disk.entries loc key value

get-Kept : (s t : Store) → IsReadable s → Kept s t → (key : Bytes) → get key t ≡ get key s
unfolding get
get-Kept s t readable k key = elim (Option-cases (Maps.lookup key s.bitcask.key_dir)) [
  | inl absent ↦ rw (get, k.same_dir, absent)
  | inr (loc, found) ↦
      let (v, l) = readable key loc found in
      rw (
        get,
        k.same_dir,
        found,
        read_location-Located s.disk loc key v l,
        read_location-Located t.disk loc key v
            (Located-Extends s.disk.entries t.disk.entries k.files l),
      )
]

IsReadable-Kept : (s t : Store) → IsReadable s → Kept s t → IsReadable t
IsReadable-Kept s t readable k key loc found =
    let (v, l) = readable key loc (ap (Maps.lookup key) (sym k.same_dir) ∙ found) in
    (v, Located-Extends s.disk.entries t.disk.entries k.files l)

-- Where every key stands where its location says, whatever calls of the operating system fail, and
-- however much of a failed write reaches the file: a `Put` that returns an error leaves every key where
-- its location says, and changes no answer of `Get`.
pub put_failed :
    (s : Store) (key value : Bytes) (e : Error)
    → IsReadable s
    → (put key value s).0 ≡ err e
    → IsReadable (put key value s).1 × ((j : Bytes) → get j (put key value s).1 ≡ get j s)
put_failed s key value e readable h =
    let k = (put-KeepsIfErr key value).at s e h in
    (IsReadable-Kept s _ readable k, get-Kept s _ readable k)

-- Where every key stands where its location says, whatever calls of the operating system fail, and
-- however much of a failed write reaches the file: a `Delete` that returns an error leaves every key
-- where its location says, and changes no answer of `Get`.
pub delete_failed :
    (s : Store) (key : Bytes) (e : Error)
    → IsReadable s
    → (delete key s).0 ≡ err e
    → IsReadable (delete key s).1 × ((j : Bytes) → get j (delete key s).1 ≡ get j s)
delete_failed s key e readable h =
    let k = (delete-KeepsIfErr key).at s e h in
    (IsReadable-Kept s _ readable k, get-Kept s _ readable k)
