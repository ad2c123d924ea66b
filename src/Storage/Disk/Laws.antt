-- ===== src/Storage/Disk/Laws.antt =====
-- How the calls on the data directory change the bytes of its files.
use titan_distributed_kv.Common.{
  ◌≡◌, ◌≢◌, refl, [], ◌∷◌, ◌++◌, Bytes, false, Option, none, some, if◌then◌else◌, bytes_key, same,
  same_ne, same_refl, ap, ◌∙◌, arith,
}
use mathlib.Core.Option
use titan_distributed_kv.Common.Maps
use titan_distributed_kv.Common.Maps.{Map, lookup-insert, lookup-erase, lookup-cons}
use titan_distributed_kv.Storage.Names.{name_lt}
use titan_distributed_kv.Storage.Disk.{
  Node, file, directory, Entries, content, grow, grow_to, sort_entries, insert_sorted,
}

pub content-insert :
    (j n : Bytes) (bytes : Bytes) (m : Entries)
    → content j (Maps.insert n (file bytes) m) ≡ (if same n j then some bytes else content j m)
unfolding content
content-insert j n bytes m = ground (arith, lookup-insert j n (file bytes) m)

pub content-erase :
    (j n : Bytes) (m : Entries)
    → content j (Maps.erase n m) ≡ (if same n j then none else content j m)
unfolding content
content-erase j n m = ground (arith, lookup-erase j n m)

pub content-grow :
    (j n bytes : Bytes) (m : Entries)
    → content j (grow n bytes m)
      ≡ (if same n j then Option.map (λ old. old ++ bytes) (content n m) else content j m)
unfolding grow
content-grow j n bytes m = grow_cases (content n m) refl
  where
    grow_cases :
        (o : Option Bytes)
        → content n m ≡ o
        → content j (grow_to n bytes m o)
          ≡ (if same n j then Option.map (λ old. old ++ bytes) o else content j m)
    grow_cases none e = ground arith
    grow_cases (some old) e = content-insert j n (old ++ bytes) m

-- A data file never turns into a directory.
pub lookup-grow_directory :
    (j n bytes : Bytes) (m : Entries)
    → Maps.lookup j m ≢ some directory
    → Maps.lookup j (grow n bytes m) ≢ some directory
unfolding grow
lookup-grow_directory j n bytes m h = go (content n m)
  where
    go : (o : Option Bytes) → Maps.lookup j (grow_to n bytes m o) ≢ some directory
    go none = h
    go (some old) = λ e. ground (arith, lookup-insert j n (file (old ++ bytes)) m)

name_lt_irrefl : (n : Bytes) → name_lt n n ≡ false
unfolding name_lt
name_lt_irrefl [] = refl
name_lt_irrefl (a ∷ n) = ground (arith, name_lt_irrefl n)

pub lookup-insert_sorted :
    (k n : Bytes) (v : Node) (m : Entries)
    → Maps.lookup k (insert_sorted n v m) ≡ (if same n k then some v else Maps.lookup k m)
unfolding insert_sorted Maps.lookup
lookup-insert_sorted k n v [] = refl
lookup-insert_sorted k n v ((other, w) ∷ m) =
    ground (arith, lookup-insert_sorted k n v m, name_lt_irrefl n)

-- Listing the directory in order changes no entry.
pub lookup-sort_entries :
    (k : Bytes) (m : Entries) → Maps.lookup k (sort_entries m) ≡ Maps.lookup k m
unfolding sort_entries Maps.lookup
lookup-sort_entries k [] = refl
lookup-sort_entries k ((n, v) ∷ m) =
    ground (arith, lookup-sort_entries k m, lookup-insert_sorted k n v (sort_entries m))

-- Growing one file leaves every other entry as it is.
pub lookup-grow_ne :
    (j n bytes : Bytes) (m : Entries) → n ≢ j → Maps.lookup j (grow n bytes m) ≡ Maps.lookup j m
unfolding grow
lookup-grow_ne j n bytes m h = go (content n m)
  where
    go : (o : Option Bytes) → Maps.lookup j (grow_to n bytes m o) ≡ Maps.lookup j m
    go none = refl
    go (some old) = ground (arith, lookup-insert j n (file (old ++ bytes)) m)

pub lookup-content :
    (n c : Bytes) (m : Entries) → content n m ≡ some c → Maps.lookup n m ≡ some (file c)
unfolding content
lookup-content n c m h = ground arith

-- An entry goes to the front of sorted ones when the first of them does not stand before it.
pub insert_sorted-first :
    (name other : Bytes) (node v : Node) (m : Entries)
    → name_lt other name ≡ false
    → insert_sorted name node ((other, v) ∷ m) ≡ (name, node) ∷ (other, v) ∷ m
unfolding insert_sorted
insert_sorted-first name other node v m e = rw e refl

pub sort_entries-single :
    (name : Bytes) (node : Node) → sort_entries ((name, node) ∷ []) ≡ (name, node) ∷ []
unfolding sort_entries insert_sorted
sort_entries-single name node = refl

-- An entry of another name in front
pub insert-apart :
    (name other : Bytes) (node v : Node) (m : Entries)
    → other ≢ name
    → Maps.insert name node ((other, v) ∷ m) ≡ (other, v) ∷ Maps.insert name node m
unfolding Maps.insert
insert-apart name other node v m ne = rw (same_ne other name ne) refl

content-apart :
    (name other : Bytes) (v : Node) (m : Entries)
    → other ≢ name
    → content name ((other, v) ∷ m) ≡ content name m
unfolding content
content-apart name other v m ne = ground (arith, lookup-cons name other v m)

grow_to-apart :
    (name other more : Bytes) (v : Node) (m : Entries) (o : Option Bytes)
    → other ≢ name
    → grow_to name more ((other, v) ∷ m) o ≡ (other, v) ∷ grow_to name more m o
unfolding grow_to
grow_to-apart name other more v m none ne = refl
grow_to-apart name other more v m (some old) ne =
    insert-apart name other (file (old ++ more)) v m ne

pub grow-apart :
    (name other more : Bytes) (v : Node) (m : Entries)
    → other ≢ name
    → grow name more ((other, v) ∷ m) ≡ (other, v) ∷ grow name more m
unfolding grow
grow-apart name other more v m ne =
    ap (grow_to name more ((other, v) ∷ m)) (content-apart name other v m ne)
    ∙ grow_to-apart name other more v m (content name m) ne

pub grow-single :
    (name bytes more : Bytes)
    → grow name more ((name, file bytes) ∷ []) ≡ (name, file (bytes ++ more)) ∷ []
unfolding grow content Maps.lookup Maps.insert
grow-single name bytes more = ground (arith, same_refl name)
