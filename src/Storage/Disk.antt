-- ===== src/Storage/Disk.antt =====
-- What storage/ uses of the package os: one data directory with its entries, and the calls that read
-- and change it. Calls that change the directory may fail, and an outcome for each comes from the
-- list `faults`; an empty list means that nothing fails any more. A read fails only where the file is
-- missing or ends too early.
pub mod Laws
pub mod Distinct
pub mod Extends
pub use titan_distributed_kv.Common.Errors.{Error, new, wrap, stuck, Result, ok, err}
use titan_distributed_kv.Common.{
  ℕ, zero, suc, ◌-◌, ◌≡◌, List, [], ◌∷◌, ◌++◌, Bytes, Bool, true, false, Option, none, some, String,
  length, take, if◌then◌else◌, bytes_key, ◌||◌,
}
use titan_distributed_kv.Common.Maps
use titan_distributed_kv.Common.Maps.{Map}
use titan_distributed_kv.Storage.Names.{name_lt}

pub data Node : Type 0 where
  file : Bytes → Node
  directory : Node

abbrev pub Entries : Type 0
Entries = Map Bytes Node

-- A call that fails: so many bytes of a write reach the file before it does.
pub record Fault : Type 0 where
  pub landed : ℕ
  pub cause : String

pub record Disk : Type 0 where
  pub entries : Entries
  pub faults : List (Option Fault)

-- An `*os.File` that is open for writing at the end of a file.
pub record Handle : Type 0 where
  pub name : Bytes
  pub is_open : Bool

abbrev pub missing : Error
missing = new "no such file or directory"

abbrev pub is_a_directory : Error
is_a_directory = new "is a directory"

abbrev pub closed : Error
closed = new "file already closed"

first_fault : List (Option Fault) → Option Fault
first_fault [] = none
first_fault (f ∷ _) = f

later_faults : List (Option Fault) → List (Option Fault)
later_faults [] = []
later_faults (_ ∷ fs) = fs

-- The outcome of the next call, and the disk with that outcome used up.
unfoldable pub next_fault : Disk → Option Fault
unfolding first_fault
next_fault d = first_fault d.faults

unfoldable pub spend : Disk → Disk
unfolding later_faults
spend d = record d { faults = later_faults d.faults }

as_content : Option Node → Option Bytes
as_content none = none
as_content (some (file bytes)) = some bytes
as_content (some directory) = none

-- The bytes of a file.
unfoldable pub content : Bytes → Entries → Option Bytes
unfolding as_content
content name m = as_content (Maps.lookup name m)

grow_to : Bytes → Bytes → Entries → Option Bytes → Entries
grow_to name bytes m none = m
grow_to name bytes m (some old) = Maps.insert name (file (old ++ bytes)) m

-- Bytes put at the end of a file. What is written to a file that was removed is lost.
unfoldable pub grow : Bytes → Bytes → Entries → Entries
unfolding grow_to
grow name bytes m = grow_to name bytes m (content name m)

append_outcome : Handle → Bytes → Disk → Bool → Option Fault → Result (Unit {0}) × Disk
unfolding spend
append_outcome h bytes d false o = (err closed, d)
append_outcome h bytes d true none =
    (ok tt, record { entries = grow h.name bytes d.entries; faults = (spend d).faults })
append_outcome h bytes d true (some f) = (
  err (new f.cause),
  record { entries = grow h.name (take f.landed bytes) d.entries; faults = (spend d).faults },
)

-- `file.Write(bytes)`
unfoldable pub append : Handle → Bytes → Disk → Result (Unit {0}) × Disk
unfolding append_outcome next_fault
append h bytes d = append_outcome h bytes d h.is_open (next_fault d)

sync_outcome : Disk → Bool → Option Fault → Result (Unit {0}) × Disk
unfolding spend
sync_outcome d false o = (err closed, d)
sync_outcome d true none = (ok tt, spend d)
sync_outcome d true (some f) = (err (new f.cause), spend d)

-- `file.Sync()`
unfoldable pub sync : Handle → Disk → Result (Unit {0}) × Disk
unfolding sync_outcome next_fault
sync h d = sync_outcome d h.is_open (next_fault d)

abbrev open_handle : Bytes → Handle
open_handle name = record { name = name; is_open = true }

open_node : Bytes → Disk → Option Node → Result Handle × Disk
open_node name d none =
    (ok (open_handle name), record d { entries = Maps.insert name (file []) d.entries })
open_node name d (some (file _)) = (ok (open_handle name), d)
open_node name d (some directory) = (err is_a_directory, d)

open_outcome : Bytes → Disk → Option Fault → Result Handle × Disk
unfolding spend open_node
open_outcome name d none = open_node name (spend d) (Maps.lookup name d.entries)
open_outcome name d (some f) = (err (new f.cause), spend d)

-- `os.OpenFile(name, os.O_CREATE|os.O_RDWR|os.O_APPEND, 0644)`
unfoldable pub open_append : Bytes → Disk → Result Handle × Disk
unfolding open_outcome next_fault
open_append name d = open_outcome name d (next_fault d)

create_node : Bytes → Disk → Option Node → Result Handle × Disk
create_node name d (some directory) = (err is_a_directory, d)
create_node name d _ =
    (ok (open_handle name), record d { entries = Maps.insert name (file []) d.entries })

-- `os.Create(name)`: a file that is there is emptied.
unfoldable pub create : Bytes → Disk → Result Handle × Disk
unfolding next_fault spend create_node
create name d = elim (next_fault d) [
  | none ↦ create_node name (spend d) (Maps.lookup name d.entries)
  | some f ↦ (err (new f.cause), spend d)
]

size_of : Option Bytes → ℕ
size_of none = 0
size_of (some bytes) = length bytes

stat_outcome : Handle → Disk → Option Fault → Result ℕ × Disk
unfolding spend size_of
stat_outcome h d none = (ok (size_of (content h.name d.entries)), spend d)
stat_outcome h d (some f) = (err (new f.cause), spend d)

-- `file.Stat()`, for the size
unfoldable pub stat_size : Handle → Disk → Result ℕ × Disk
unfolding stat_outcome next_fault
stat_size h d = stat_outcome h d (next_fault d)

-- `os.Remove(name)`
unfoldable pub remove : Bytes → Disk → Result (Unit {0}) × Disk
unfolding next_fault spend
remove name d = elim (next_fault d) [
  | none ↦ (elim (Maps.lookup name d.entries) [
    | none ↦ (err missing, spend d)
    | some _ ↦ (ok tt, record { entries = Maps.erase name d.entries; faults = (spend d).faults })
  ])
  | some f ↦ (err (new f.cause), spend d)
]

pub insert_sorted : Bytes → Node → Entries → Entries
insert_sorted name node [] = (name, node) ∷ []
insert_sorted name node ((other, n) ∷ m) =
    if name_lt other name
    then (other, n) ∷ insert_sorted name node m
    else (name, node) ∷ (other, n) ∷ m

-- The entries in the order of their names.
unfoldable pub sort_entries : Entries → Entries
unfolding insert_sorted
sort_entries [] = []
sort_entries ((name, node) ∷ m) = insert_sorted name node (sort_entries m)

-- `os.ReadDir(dir)`
unfoldable pub read_dir : Disk → Result Entries × Disk
unfolding next_fault spend sort_entries
read_dir d = elim (next_fault d) [
  | none ↦ (ok (sort_entries d.entries), spend d)
  | some f ↦ (err (new f.cause), spend d)
]

-- The bytes behind an opened name, or the error of a read of them
abbrev pub bytes_of : Node → Result Bytes
bytes_of (file bytes) = ok bytes
bytes_of directory = err is_a_directory

-- `os.MkdirAll(dir, 0755)`
unfoldable pub mkdir_all : Disk → Result (Unit {0}) × Disk
unfolding next_fault spend
mkdir_all d = elim (next_fault d) [
  | none ↦ (ok tt, spend d)
  | some f ↦ (err (new f.cause), spend d)
]

-- `os.Open(name)`, which opens a directory as well, whose reads fail; of a file, the bytes that reading from the
-- start would give
unfoldable pub open_read : Bytes → Disk → Result Node
open_read name d = elim (Maps.lookup name d.entries) [ none ↦ err missing | some n ↦ ok n ]
