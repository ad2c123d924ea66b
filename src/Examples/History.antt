-- ===== src/Examples/History.antt =====
-- The theorems on the bounds of a file and on histories, at concrete engines.
use titan_distributed_kv.Common.{◌+◌, ◌%◌, ◌≤◌, ◌≡◌, refl, [], ◌∷◌, none, length, bytes_key, arith}
use titan_distributed_kv.Common.Maps
use titan_distributed_kv.Common.Maps.{IsVisit, lookup-cons, lookup-nil}
use titan_distributed_kv.Storage.Codec.{word}
use titan_distributed_kv.Storage.Names.{data_name}
use titan_distributed_kv.Storage.Exec.{Store}
use titan_distributed_kv.Storage.Bitcask.{put}
use titan_distributed_kv.Storage.Bitcask.Bounds.{put_bounds}
use titan_distributed_kv.Storage.Api
use titan_distributed_kv.Storage.History.{
  did_put, did_delete, started, deletes, served, current, Runs-get,
}
use titan_distributed_kv.Storage.History
use titan_distributed_kv.Storage.Recovery.{new_bitcask}
use titan_distributed_kv.Storage.Recovery.Restart.{empty_directory}
use titan_distributed_kv.Examples.Engine.{a, b, one, loaded, loaded-IsValid, engine}

no_second_file :
    Maps.lookup (data_name ((loaded.bitcask.current_file_id + 1) % word)) loaded.disk.entries ≡ none
unfolding engine
no_second_file = refl

-- The engine that rotates at the second `Put`.
put_bounds_example :
    (put b one loaded).1.bitcask.current_offset
    ≤ loaded.bitcask.max_file_size + (8 + length b + length one)
put_bounds_example = put_bounds loaded b one loaded-IsValid no_second_file

-- An entry that is put and deleted.
abbrev opened : Store
opened = (new_bitcask empty_directory).1

abbrev stored : Store
stored = (Api.put a one opened).1

Runs-get_example : Api.get b (Api.delete a stored).1 ≡ served none
unfolding current bytes_key
Runs-get_example =
    Runs-get (did_delete a ∷ did_put a one ∷ []) (Api.delete a stored).1 b
      (deletes a (λ e. cc e) (History.puts a one (λ e. cc e) (omega arith) (omega arith) started))
      (λ e. cc e)
