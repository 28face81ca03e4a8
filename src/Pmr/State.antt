-- ===== src/Pmr/State.antt =====
-- The states of frontend/pmr/server.h and client.h, and `AllocChunk`, `FreeChunk` and `PeekUsage` of
-- frontend/pmr/pmr.cc.
use pmraccess.Base.{ℕ, zero, suc, ◌+◌, ◌-◌, ◌*◌, ◌/◌, ◌^◌, List, [], ltb, if◌then◌else◌, Bytes, Mem}
use pmraccess.Outcome.{Outcome, done, ◌>>=◌, ◌>>◌, check}
use pmraccess.Wire.{max_async_size, u32, client_done, clerk_done}
use pmraccess.Wire.Transfer.{set_header}
use pmraccess.Bitset.{AtomicBitset, new, blindset, get, clear}
use pmraccess.Store.{Meta}

-- `UINT32_MAX`, for a chunk that is not there.
abbrev pub no_chunk : ℕ
no_chunk = 2 ^ 32 - 1

abbrev pub max_dmabuf_size : ℕ
max_dmabuf_size = 8 * 1024 * 1024

abbrev pub chunk_count : ℕ
chunk_count = max_dmabuf_size / max_async_size

-- An element of `global_queue`: the buffer to write, its length, and the chunk to free.
pub record Item : Type 0 where
  pub buf : Mem
  pub size : ℕ
  pub chunk : ℕ

-- `PMRServer`: `T` are the states of `map_`, `S` those of `db_`; `region` is the registered memory,
-- addressed from its start, as are the pointers into it.
pub record Server (S T : Type 0) : Type 0 where
  pub map : T
  pub bitmap : AtomicBitset
  pub queue : List Item
  pub region : Mem
  pub db : S

-- `PMRClerk` with the locals `key_batch` and `metas` of its loop.
pub record Clerk : Type 0 where
  pub send_buf : Mem
  pub buf_head : ℕ
  pub chunk_offset : ℕ
  pub key_batch : List Bytes
  pub metas : List Meta

-- `PMRClient`
pub record Client : Type 0 where
  pub local_buf : Mem
  pub buf_head : ℕ
  pub chunk_offset : ℕ

-- The constructor `PMRClerk::PMRClerk`, on the buffers of its context.
unfoldable pub new_clerk : Mem → Clerk
new_clerk send_buf = record {
  send_buf = set_header send_buf clerk_done;
  buf_head = no_chunk;
  chunk_offset = no_chunk;
  key_batch = [];
  metas = [];
}

-- `PMRClient::PMRClient`, and `Connect` up to its call of `SendAlloc`.
unfoldable pub new_client : Mem → Client
new_client local_buf = record {
  local_buf = set_header local_buf client_done;
  buf_head = no_chunk;
  chunk_offset = no_chunk;
}

-- The loop of `PMRServer::PeekUsage` over the chunks from `i`, `n` of them left; `usage` is in
-- bytes. The division by the size of the region, in floating point, is left out.
unfoldable pub peek_from : ℕ → ℕ → AtomicBitset → ℕ → Outcome ℕ
peek_from zero i b usage = done usage
peek_from (suc n) i b usage = get i b >>= λ used.
    peek_from n (suc i) b (u32 (usage + max_async_size * (if used then 1 else 0)))

module _ {S T : Type 0} where
  -- `PMRServer::PMRServer`, as far as the model has its state.
  unfoldable pub new_server : T → Mem → S → Server S T
  new_server map region db = record {
    map = map;
    bitmap = new chunk_count;
    queue = [];
    region = region;
    db = db;
  }

  -- `PMRServer::AllocChunk`
  unfoldable pub alloc_chunk : Server S T → Outcome (ℕ × Server S T)
  alloc_chunk s = do r ← blindset s.bitmap; done (r.0, record s { bitmap = r.1 })

  -- `PMRServer::FreeChunk`, with its two asserts.
  unfoldable pub free_chunk : ℕ → Server S T → Outcome (Server S T)
  free_chunk chunkid s = do
    check (ltb chunkid chunk_count)
    used ← get chunkid s.bitmap
    check used
    r ← clear chunkid s.bitmap
    done (record s { bitmap = r.1 })

  unfoldable pub peek_usage : Server S T → Outcome ℕ
  unfolding peek_from
  peek_usage s = peek_from chunk_count 0 s.bitmap 0
