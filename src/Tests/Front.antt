-- ===== src/Tests/Front.antt =====
-- The properties of frontend/pmr at concrete sessions.
use pmraccess.Base.{
  ℕ, ◌≡◌, refl, inl, true, List, [], ◌∷◌, ◌++◌, arith, bytes_eq, if◌then◌else◌, Bytes, none, some,
  load, length, length-load,
}
use pmraccess.Outcome.{done, waiting}
use pmraccess.Wire.{put}
use pmraccess.Store.{Meta}
use pmraccess.Pmr.State.{Server}
use pmraccess.Pmr.Clerk.{copy_chunk}
use pmraccess.Bitset.Alloc.{Took}
use pmraccess.Pmr.Clerk.{flush}
use pmraccess.Pmr.Client.{Session, send_alloc, send_write, send_get, send_delete, send_close}
use pmraccess.Pmr.Pending.{Entry, pending, index_meta}
use pmraccess.Pmr.Invariant.{Inv, Inv-buffers, contents, indexed_or}
use pmraccess.Pmr.Sessions.{send_write_lem}
use pmraccess.Pmr.Reads.{send_get_value}
use pmraccess.Pmr.Lost.{send_get_lost}
use pmraccess.Tests.Sessions.{client_ready, client_ready-flag}
use pmraccess.Pmr.Deletes.{send_delete_lem, send_delete_stale}
use pmraccess.Pmr.Alloc.{queued, send_alloc_lem}
use pmraccess.Pmr.Closing.{send_close_lem}
use pmraccess.Tests.Data.{
  copying_nic, Pairs, find_pair, pair_map-HashMapLaws, Db, db, view, db_laws, index, some_key,
  some_val, one_pair, zeros,
}
use pmraccess.Tests.Sessions.{
  fresh, fresh-Inv, other_key, entry, loaded, loaded-Inv, loaded-contents,
}

send_write_lem_example :
    (y : Session Db (Pairs Meta)) × (es' : List Entry) × (slot' : ℕ) × (send_write copying_nic db
        index put some_key some_val loaded
      ≡ done y)
    × Inv index y es' slot'
    × ((j : Bytes)
        → contents index view y.server j
          ≡ (if bytes_eq some_key j then some some_val else contents index view loaded.server j))
send_write_lem_example =
    send_write_lem copying_nic db index pair_map-HashMapLaws view db_laws loaded (entry ∷ []) 0 1
      put some_key some_val (inl refl) loaded-Inv (omega arith) (omega arith) refl

send_get_value_example :
    (y : Session Db (Pairs Meta)) × (send_get copying_nic db index other_key loaded
      ≡ done (some some_val, y))
    × (y.server ≡ loaded.server)
    × Inv index y (entry ∷ []) 0
send_get_value_example =
    send_get_value copying_nic db index view db_laws loaded (entry ∷ []) 0 other_key some_val
      loaded-Inv (omega arith) loaded-contents (omega arith)

-- A store that binds a key to 200 bytes.
abbrev long_val : Bytes
long_val = load zeros 0 200

long_val-length : length long_val ≡ 200
long_val-length = length-load zeros 0 200

abbrev with_long : Session Db (Pairs Meta)
with_long = record {
  client = record (fresh.client) { local_buf = client_ready };
  clerk = record (fresh.clerk) { send_buf = zeros };
  server = record (fresh.server) { db = (some_key, long_val) ∷ [] };
}

with_long-Inv : Inv index with_long [] 0
with_long-Inv =
    Inv-buffers index fresh [] 0 client_ready zeros ((some_key, long_val) ∷ []) fresh-Inv
      client_ready-flag

with_long-contents : contents index view with_long.server some_key ≡ some long_val
unfolding find_pair bytes_eq
with_long-contents = refl

send_get_lost_example : send_get copying_nic db index some_key with_long ≡ waiting
send_get_lost_example =
    send_get_lost copying_nic db index view db_laws with_long [] 0 some_key long_val with_long-Inv
      (omega arith) with_long-contents (omega (arith, long_val-length))
      (omega (arith, long_val-length))

send_delete_lem_example :
    (y : Session Db (Pairs Meta)) × (send_delete copying_nic db index some_key loaded
      ≡ done (true, y))
    × Inv index y (entry ∷ []) 0
    × ((j : Bytes)
        → contents index view y.server j
          ≡ indexed_or loaded.server.region j
              (index.find j loaded.server.map)
              (if bytes_eq some_key j then none else view one_pair j))
    × (y.server ≡ record (loaded.server) { db = (db.delete some_key one_pair).1 })
send_delete_lem_example =
    send_delete_lem copying_nic db index view db_laws loaded (entry ∷ []) 0 some_key loaded-Inv
      (omega arith)

send_delete_stale_example :
    (y : Session Db (Pairs Meta)) × (send_delete copying_nic db index other_key loaded
      ≡ done (true, y))
    × (contents index view y.server other_key ≡ contents index view loaded.server other_key)
    × ¬ (contents index view y.server other_key ≡ none)
unfolding find_pair bytes_eq
send_delete_stale_example =
    send_delete_stale copying_nic db index view db_laws loaded (entry ∷ []) 0 other_key
      (index_meta 0 entry) loaded-Inv (omega arith) refl

send_alloc_lem_example :
    (y : Session Db (Pairs Meta)) × (new_slot : ℕ) × (send_alloc copying_nic db index loaded
      ≡ done y)
    × Inv index y [] new_slot
    × (y.clerk.buf_head ≡ 0)
    × Took loaded.server.bitmap 0 new_slot y.server.bitmap
    × ((j : Bytes) → contents index view y.server j ≡ contents index view loaded.server j)
    × (y.server.queue
        ≡ [] ++ queued copying_nic db index pair_map-HashMapLaws view db_laws loaded 0 ∷ [])
    × (y.server
        ≡ record (flush db index 13 loaded.clerk loaded.server) { bitmap = y.server.bitmap })
send_alloc_lem_example =
    send_alloc_lem copying_nic db index pair_map-HashMapLaws view db_laws loaded (entry ∷ []) 0 1
      loaded-Inv (omega arith) refl

send_close_lem_example :
    (s : Server Db (Pairs Meta)) × (send_close copying_nic db index loaded ≡ done s)
    × ((j : Bytes) → contents index view s j ≡ contents index view loaded.server j)
    × ((j : Bytes) (e : Entry)
        → pending (entry ∷ []) j ≡ some e
        → (index.find j s.map ≡ none) × (view s.db j ≡ some e.val))
    × (s.queue
        ≡ [] ++ record { buf = copy_chunk loaded.server.region 0; size = 13; chunk = 0 } ∷ [])
send_close_lem_example =
    send_close_lem copying_nic db index pair_map-HashMapLaws view db_laws loaded (entry ∷ []) 0
      loaded-Inv (omega arith)
