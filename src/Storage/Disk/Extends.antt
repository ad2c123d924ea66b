-- ===== src/Storage/Disk/Extends.antt =====
-- Files that stay where they are and at most grow, under the calls that write.

use titan_distributed_kv.Common.{
  ◌≡◌, refl, ap, ◌∙◌, sym, [], ◌++◌, append_assoc, append-nil, Bytes, Bool, true, false, Option,
  none, some, take, bytes_key, arith,
}
use titan_distributed_kv.Common.Maps
use titan_distributed_kv.Common.Maps.{lookup-insert}
use titan_distributed_kv.Storage.Disk.{
  Node, file, directory, Entries, Disk, Fault, Handle, content, grow, append, append_outcome, sync,
  sync_outcome, open_append, open_outcome, open_node, stat_size, stat_outcome, next_fault, spend,
}
use titan_distributed_kv.Storage.Disk.Laws.{content-grow}

-- The files of `m` are still there in `m'`, and have at most grown.
abbrev pub Extends : Entries → Entries → Type 0
Extends m m' =
    (name bytes : Bytes)
    → content name m ≡ some bytes
    → (more : Bytes) × (content name m' ≡ some (bytes ++ more))

pub Extends-refl : (m : Entries) → Extends m m
Extends-refl m name bytes e = ([], e ∙ ap some (sym (append-nil bytes)))

pub Extends-trans : (m n k : Entries) → Extends m n → Extends n k → Extends m k
Extends-trans m n k f g name bytes e =
    let (more, e') = f name bytes e in
    let (rest, e'') = g name (bytes ++ more) e' in
    (more ++ rest, e'' ∙ ap some (append_assoc bytes more rest))

pub grow-Extends : (name bytes : Bytes) (m : Entries) → Extends m (grow name bytes m)
grow-Extends name bytes m j old e = elim (bytes_key.dec name j) [
  | yes p ↦ (bytes, ground (arith, content-grow j name bytes m))
  | no q ↦ ([], ground (arith, content-grow j name bytes m, append-nil old))
]

-- A new empty file changes no other.
pub insert_new-Extends :
    (name : Bytes) (m : Entries)
    → Maps.lookup name m ≡ none
    → Extends m (Maps.insert name (file []) m)
unfolding content
insert_new-Extends name m e j bytes found =
    ([], ground (arith, lookup-insert j name (file []) m, append-nil bytes))

spend-Extends : (d : Disk) → Extends d.entries (spend d).entries
unfolding spend
spend-Extends d = Extends-refl d.entries

pub append-Extends :
    (h : Handle) (bytes : Bytes) (d : Disk) → Extends d.entries (append h bytes d).1.entries
unfolding append
append-Extends h bytes d = go h.is_open (next_fault d)
  where
    go : (b : Bool) (o : Option Fault) → Extends d.entries (append_outcome h bytes d b o).1.entries
    go false o = Extends-refl d.entries
    go true none = grow-Extends h.name bytes d.entries
    go true (some f) = grow-Extends h.name (take f.landed bytes) d.entries

pub sync-Extends : (h : Handle) (d : Disk) → Extends d.entries (sync h d).1.entries
unfolding sync
sync-Extends h d = go h.is_open (next_fault d)
  where
    go : (b : Bool) (o : Option Fault) → Extends d.entries (sync_outcome d b o).1.entries
    go false o = Extends-refl d.entries
    go true none = spend-Extends d
    go true (some f) = spend-Extends d

pub stat_size-Extends : (h : Handle) (d : Disk) → Extends d.entries (stat_size h d).1.entries
unfolding stat_size
stat_size-Extends h d = go (next_fault d)
  where
    go : (o : Option Fault) → Extends d.entries (stat_outcome h d o).1.entries
    go none = spend-Extends d
    go (some f) = spend-Extends d

open_node-Extends :
    (name : Bytes) (d : Disk) (node : Option Node)
    → Maps.lookup name d.entries ≡ node
    → Extends d.entries (open_node name d node).1.entries
unfolding open_node
open_node-Extends name d none e = insert_new-Extends name d.entries e
open_node-Extends name d (some (file _)) e = Extends-refl d.entries
open_node-Extends name d (some directory) e = Extends-refl d.entries

pub open_append-Extends :
    (name : Bytes) (d : Disk) → Extends d.entries (open_append name d).1.entries
unfolding open_append
open_append-Extends name d = go (next_fault d)
  where
    go : (o : Option Fault) → Extends d.entries (open_outcome name d o).1.entries
    go none = unfold spend in open_node-Extends name (spend d) (Maps.lookup name d.entries) refl
    go (some f) = spend-Extends d
