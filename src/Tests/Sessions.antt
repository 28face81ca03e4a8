-- ===== src/Tests/Sessions.antt =====
-- Two sessions of frontend/pmr in the middle of their lives, the first with an empty chunk, the
-- second with one record in it that the store does not have, and a message buffer with a put.
use pmraccess.Base.{
  ℕ, zero, suc, ◌^◌, ◌<◌, ◌≡◌, refl, ap, [], ◌∷◌, arith, get_or, bytes_eq, Bytes, Mem, store,
  load32, load32-store32, load-store_self, Option, none, some,
}
use pmraccess.Wire.{client_done}
use pmraccess.Wire.Transfer.{set_header}
use pmraccess.Store.{Meta, mem_meta}
use pmraccess.Bitset.{AtomicBitset}
use pmraccess.Bitset.Laws.{IsValid}
use pmraccess.Pmr.Client.{Session}
use pmraccess.Pmr.Pending.{Entry, pending, batch_meta, index_meta}
use pmraccess.Pmr.Invariant.{Inv, contents}
use pmraccess.Tests.Data.{Db, zeros, some_val, one_pair, index, view, find_pair, Pairs}

-- Chunk 0 is taken.
abbrev pub bits : AtomicBitset
bits = record { size = 256; blocks = 1 ∷ 0 ∷ 0 ∷ 0 ∷ [] }

pub bits-IsValid : IsValid bits
bits-IsValid = record { room = omega arith; words = λ k. word k }
  where
    word : (k : ℕ) → get_or (1 ∷ 0 ∷ 0 ∷ 0 ∷ []) k 0 < 2 ^ 64
    word zero = omega arith
    word (suc zero) = omega arith
    word (suc (suc zero)) = omega arith
    word (suc (suc (suc zero))) = omega arith
    word (suc (suc (suc (suc k)))) = omega arith

abbrev pub client_ready : Mem
client_ready = set_header zeros client_done

pub client_ready-flag : load32 client_ready 0 ≡ client_done
client_ready-flag = load32-store32 zeros 0 client_done (omega arith)

abbrev pub fresh : Session Db (Pairs Meta)
fresh = record {
  client = record { local_buf = client_ready; buf_head = 0; chunk_offset = 0 };
  clerk = record { send_buf = zeros; buf_head = 0; chunk_offset = 0; key_batch = []; metas = [] };
  server = record { map = []; bitmap = bits; queue = []; region = zeros; db = one_pair };
}

pub fresh-Inv : Inv index fresh [] 0
unfolding pending find_pair
fresh-Inv = record {
  flag = client_ready-flag;
  same_chunk = refl;
  same_head = refl;
  room = omega arith;
  chunk_at = refl;
  slot_in = omega arith;
  slot_used = refl;
  bits = bits-IsValid;
  bits_size = refl;
  keys = refl;
  descriptors = refl;
  index = λ j e p. cc;
  apart = λ j m p q. cc;
  stored = tt;
}

-- A key that the store does not bind, and its record in the chunk.
abbrev pub other_key : Bytes
other_key = 107 ∷ 50 ∷ []

abbrev pub entry : Entry
entry = record { off = 0; key = other_key; val = some_val }

abbrev pub loaded : Session Db (Pairs Meta)
loaded = record {
  client = record { local_buf = client_ready; buf_head = 13; chunk_offset = 0 };
  clerk = record {
    send_buf = zeros;
    buf_head = 13;
    chunk_offset = 0;
    key_batch = other_key ∷ [];
    metas = batch_meta entry ∷ [];
  };
  server = record {
    map = (other_key, index_meta 0 entry) ∷ [];
    bitmap = bits;
    queue = [];
    region = store zeros 10 some_val;
    db = one_pair;
  };
}

pub loaded-Inv : Inv index loaded (entry ∷ []) 0
unfolding pending find_pair
loaded-Inv = record {
  flag = client_ready-flag;
  same_chunk = refl;
  same_head = refl;
  room = omega arith;
  chunk_at = refl;
  slot_in = omega arith;
  slot_used = refl;
  bits = bits-IsValid;
  bits_size = refl;
  keys = refl;
  descriptors = refl;
  index = λ j e p. ground arith;
  apart = λ j m p q. ground arith;
  stored = (
    record {
      inside = omega arith;
      key_fits = omega arith;
      bytes = load-store_self zeros 10 some_val;
    },
    tt,
  );
}

pub loaded-contents : contents index view loaded.server other_key ≡ some some_val
unfolding find_pair mem_meta bytes_eq
loaded-contents = ap some (load-store_self zeros 10 some_val)

-- The fresh session over a leveldb that holds nothing.
abbrev pub over_level : Session (Bytes → Option Bytes) (Pairs Meta)
over_level = record {
  client = record { local_buf = client_ready; buf_head = 0; chunk_offset = 0 };
  clerk = record { send_buf = zeros; buf_head = 0; chunk_offset = 0; key_batch = []; metas = [] };
  server = record { map = []; bitmap = bits; queue = []; region = zeros; db = λ k. none };
}

pub over_level-Inv : Inv index over_level [] 0
unfolding pending find_pair
over_level-Inv = record {
  flag = client_ready-flag;
  same_chunk = refl;
  same_head = refl;
  room = omega arith;
  chunk_at = refl;
  slot_in = omega arith;
  slot_used = refl;
  bits = bits-IsValid;
  bits_size = refl;
  keys = refl;
  descriptors = refl;
  index = λ j e p. cc;
  apart = λ j m p q. cc;
  stored = tt;
}
