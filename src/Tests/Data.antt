-- ===== src/Tests/Data.antt =====
-- Concrete instances of what the model takes as parameters: a network card, the hash map of
-- libcuckoo, leveldb, the byte order functions; and the sessions that the examples use.
use pmraccess.Base.{
  ◌≡◌, refl, ◌∙◌, Bool, true, false, Option, none, some, List, [], ◌∷◌, arith, if◌then◌else◌,
  Bool-cases, inl, inr, bytes_eq, bytes_eq→eq, Bytes, Mem, load, store,
}
use pmraccess.Rdma.Nic.{Nic}
use pmraccess.Rdma.Context.{ByteOrder}
use pmraccess.Store.{Meta, DbOps, DbLaws, HashMapOps, HashMapLaws}
use pmraccess.Store.Cuckoo.{cuckoo_db, CuckooDb-DbLaws}
use pmraccess.Store.Level.{BatchOp, LevelOps, LevelLaws, apply_batch}
use pmraccess.Bitset.{new}
use pmraccess.Pmr.State.{Server, chunk_count}

-- A card that copies at once.
abbrev pub copying_nic : Nic
copying_nic = record {
  write =
      λ src local_offset dst remote_offset len. store dst remote_offset (load src local_offset len);
  write_lem = λ src local_offset dst remote_offset len. refl;
}

-- A hash map as a list of pairs, the newest first.
abbrev pub Pairs : Type 0 → Type 0
Pairs V = List (Bytes × V)

unfoldable pub find_pair : {V : Type 0} → Bytes → Pairs V → Option V
find_pair j [] = none
find_pair j ((k, v) ∷ ps) = if bytes_eq k j then some v else find_pair j ps

pub erase_pair : {V : Type 0} → Bytes → Pairs V → Pairs V
erase_pair k [] = []
erase_pair k ((k', v) ∷ ps) =
    let rest = erase_pair k ps in if bytes_eq k k' then rest else (k', v) ∷ rest

abbrev pub pair_map : {V : Type 0} → HashMapOps V (Pairs V)
pair_map = record {
  empty = [];
  insert_or_assign = λ k v ps. (k, v) ∷ ps;
  find = find_pair;
  erase = erase_pair;
}

find-erase_pair :
    {V : Type 0} (k : Bytes) (ps : Pairs V) (j : Bytes)
    → find_pair j (erase_pair k ps) ≡ (if bytes_eq k j then none else find_pair j ps)
unfolding find_pair erase_pair
find-erase_pair k [] j = ground arith
find-erase_pair k ((k', v) ∷ ps) j = elim (Bool-cases (bytes_eq k k')) [
  | inl same ↦ rw same (find-erase_pair k ps j ∙ rw (bytes_eq→eq k k' same) (drop (bytes_eq k' j)))
  | inr other ↦ rw other (elim (Bool-cases (bytes_eq k' j)) [
    | inl here ↦ rw (here, ← bytes_eq→eq k' j here, other) refl
    | inr there ↦ rw there (find-erase_pair k ps j)
  ])
]
  where
    drop :
        (b : Bool)
        → (if b then none else find_pair j ps)
          ≡ (if b then none else if b then some v else find_pair j ps)
    drop true = refl
    drop false = refl

pub pair_map-HashMapLaws : {V : Type 0} → HashMapLaws (pair_map {V = V})
unfolding find_pair
pair_map-HashMapLaws = record {
  find_empty = λ j. refl;
  find_insert = λ k v ps j. refl;
  find_erase = λ k ps j. find-erase_pair k ps j;
}

-- leveldb as the function from keys to values; it refuses the empty batch.
abbrev pub level_ops : LevelOps (Bytes → Option Bytes)
level_ops = record {
  write =
      λ b s. elim b [ [] ↦ (false, s) | op ∷ ops ↦ (true, λ j. apply_batch (op ∷ ops) j (s j)) ];
  get = λ k s. s k;
}

pub level_ops-LevelLaws : LevelLaws level_ops
level_ops-LevelLaws = record {
  write_ok = λ b s j. accepted b s j;
  write_failed = λ b s j. refused b s j;
}
  where
    accepted :
        (b : List BatchOp) (s : Bytes → Option Bytes) (j : Bytes)
        → (level_ops.write b s).0 ≡ true
        → (level_ops.write b s).1 j ≡ apply_batch b j (s j)
    accepted [] s j e = cc
    accepted (op ∷ ops) s j e = refl

    refused :
        (b : List BatchOp) (s : Bytes → Option Bytes) (j : Bytes)
        → (level_ops.write b s).0 ≡ false
        → (level_ops.write b s).1 j ≡ s j
    refused [] s j e = refl
    refused (op ∷ ops) s j e = cc

-- One that refuses nothing.
abbrev pub steady_ops : LevelOps (Bytes → Option Bytes)
steady_ops = record { write = λ b s. (true, λ j. apply_batch b j (s j)); get = λ k s. s k }

pub steady_ops-LevelLaws : LevelLaws steady_ops
steady_ops-LevelLaws = record { write_ok = λ b s j e. refl; write_failed = λ b s j e. cc }

-- The byte order of a big-endian host.
abbrev pub big_endian : ByteOrder
big_endian = record {
  htonll = λ n. n;
  ntohll = λ n. n;
  htonl = λ n. n;
  ntohl = λ n. n;
  htons = λ n. n;
  ntohs = λ n. n;
  ntohll_lem = λ n. refl;
  ntohl_lem = λ n. refl;
  ntohs_lem = λ n. refl;
}

abbrev pub zeros : Mem
zeros = λ i. 0

abbrev pub some_key : Bytes
some_key = 107 ∷ 49 ∷ []

abbrev pub some_val : Bytes
some_val = 118 ∷ 50 ∷ 51 ∷ []

-- The store of the examples: `CuckooDB` over pairs, and what a reader sees in it.
abbrev pub Db : Type 0
Db = Pairs Bytes

abbrev pub db : DbOps Db
db = cuckoo_db pair_map

abbrev pub view : Db → Bytes → Option Bytes
view t k = find_pair k t

abbrev pub db_laws : DbLaws db view
db_laws = CuckooDb-DbLaws pair_map pair_map-HashMapLaws

abbrev pub index : HashMapOps Meta (Pairs Meta)
index = pair_map

abbrev pub one_pair : Db
one_pair = (some_key, some_val) ∷ []

abbrev pub server : Server Db (Pairs Meta)
server = record { map = []; bitmap = new chunk_count; queue = []; region = zeros; db = one_pair }
