-- ===== src/Storage/Disk/Distinct.antt =====
-- A directory that lists each name once still does after the calls on it, and in the order of `os.ReadDir`.
use titan_distributed_kv.Common.{
  ◌≡◌, ◌∙◌, inl, inr, [], ◌∷◌, ◌++◌, Bytes, Option, none, some, bytes_key, arith, Bool-cases,
}
use titan_distributed_kv.Common.Maps
use titan_distributed_kv.Common.Maps.{NodupKeys, insert-NodupKeys, lookup-nil, lookup-cons}
use titan_distributed_kv.Storage.Names.{name_lt}
use titan_distributed_kv.Storage.Disk.{
  Node, file, Entries, content, grow, grow_to, sort_entries, insert_sorted,
}
use titan_distributed_kv.Storage.Disk.Laws.{lookup-insert_sorted, lookup-sort_entries}

grow_to-NodupKeys :
    (n bytes : Bytes) (m : Entries) (o : Option Bytes)
    → NodupKeys m
    → NodupKeys (grow_to n bytes m o)
unfolding grow_to
grow_to-NodupKeys n bytes m none h = h
grow_to-NodupKeys n bytes m (some old) h = insert-NodupKeys n (file (old ++ bytes)) m h

pub grow-NodupKeys : (n bytes : Bytes) (m : Entries) → NodupKeys m → NodupKeys (grow n bytes m)
unfolding grow
grow-NodupKeys n bytes m h = grow_to-NodupKeys n bytes m (content n m) h

insert_sorted-NodupKeys :
    (n : Bytes) (v : Node) (m : Entries)
    → Maps.lookup n m ≡ none
    → NodupKeys m
    → NodupKeys (insert_sorted n v m)
unfolding insert_sorted
insert_sorted-NodupKeys n v [] e h = (e, tt)
insert_sorted-NodupKeys n v ((other, w) ∷ m) e (fresh, h) = elim (Bool-cases (name_lt other n)) [
  | inl before ↦ rw before (
    ground (arith, lookup-insert_sorted other n v m, lookup-cons n other w m),
    insert_sorted-NodupKeys n v m (ground (arith, lookup-cons n other w m)) h,
  )
  | inr behind ↦ rw behind (e, (fresh, h))
]

pub sort_entries-NodupKeys : (m : Entries) → NodupKeys m → NodupKeys (sort_entries m)
unfolding sort_entries
sort_entries-NodupKeys [] h = tt
sort_entries-NodupKeys ((n, v) ∷ m) (fresh, h) =
    insert_sorted-NodupKeys n v (sort_entries m) (lookup-sort_entries n m ∙ fresh)
      (sort_entries-NodupKeys m h)
