-- ===== src/Pmr/Serving/Answers.antt =====
-- A frontend/pmr server from its start, with any number of clients: what they read and write.
use pmraccess.Base.{
  ℕ, ◌+◌, ◌<◌, ◌≤◌, ◌≡◌, refl, ◌∙◌, ap, false, Option, none, some, List, [], if◌then◌else◌, length,
  bytes_eq, Bytes, Mem, fun_ext,
}
use pmraccess.Outcome.{done}
use pmraccess.Wire.{Operation, max_request}
use pmraccess.Rdma.Nic.{Nic}
use pmraccess.Store.{Meta, DbOps, DbLaws, HashMapOps, HashMapLaws}
use pmraccess.Uring.{UringOps, UringLaws}
use pmraccess.Bitset.Laws.{test}
use pmraccess.Pmr.State.{chunk_count}
use pmraccess.Pmr.Client.{Session, send_write, send_get}
use pmraccess.Pmr.Pending.{Entry}
use pmraccess.Pmr.Invariant.{contents, indexed_or}
use pmraccess.Pmr.Writes.{IsWrite}
use pmraccess.Pmr.Reads.{send_get_value}
use pmraccess.Pmr.System.{initial}
use pmraccess.Pmr.Moves.{owned-CanDrain}
use pmraccess.Pmr.Safety.{IsFresh, initial-OwnedOnce}
use pmraccess.Pmr.Serving.{
  Desk, Hall, session, Alone, Change, after, replay, opened, Runs, start, later,
}
use pmraccess.Pmr.Serving.Places.{Well}
use pmraccess.Pmr.Serving.Writes.{write-Well}
use pmraccess.Pmr.Serving.Contents.{Step-Kept}

module _ {K S T : Type 0} (u : UringOps K) {entries : ℕ} (laws : UringLaws u entries) (nic : Nic)
    (db : DbOps S) (h : HashMapOps Meta T) (map_laws : HashMapLaws h)
    (view : S → Bytes → Option Bytes) (store_laws : DbLaws db view) where
  pub opened-Well :
      (k : K) (qd : ℕ) (region : Mem) (store : S)
      → IsFresh u laws db h k qd
      → (x : Hall K S T) → x ≡ opened k qd h.empty region store
      → Well u laws h x (λ i. []) (λ i. i)
  unfolding opened initial
  opened-Well k qd region store f x e = rw e (record {
    each = λ i d p. cc;
    distinct = λ i j d d' p q same. same;
    cover = λ j m p. absurd (none_some _ (map_laws.find_empty j) p);
    drain =
        owned-CanDrain u laws (initial k qd h.empty region store)
          (initial-OwnedOnce u laws db h k qd h.empty region store f);
    unqueued = λ i d p. cc;
  })
    where
      none_some : {m : Meta} (o : Option Meta) → o ≡ none → o ≡ some m → ⊥
      none_some o p q = cc

  -- The desks and what a reader sees, after any steps.
  pub Runs-Well :
      (k : K) (qd : ℕ) (region : Mem) (store : S) (cs : List Change) (x : Hall K S T)
      → IsFresh u laws db h k qd
      → Runs u nic db h view (opened k qd h.empty region store) cs x
      → (es : ℕ → List Entry) × (slot : ℕ → ℕ) × Well u laws h x es slot
        × ((j : Bytes) → contents h view x.server j ≡ replay cs (view store) j)
  unfolding replay opened
  Runs-Well k qd region store cs x f start = (
    _,
    _,
    opened-Well k qd region store f _ refl,
    λ j. ap (λ o. indexed_or region j o (view store j)) (map_laws.find_empty j),
  )
  Runs-Well k qd region store _ _ f (later {cs} {c} {y} {z} run step) =
      let (es, slot, w, sees) = Runs-Well k qd region store cs y f run in
      let (es', slot', w', sees') =
        Step-Kept u laws nic db h map_laws view store_laws y z c es slot w step in
      (es', slot', w', λ j. sees' j ∙ ap (λ g. after c g j) (fun_ext sees))

  -- On a server with a fresh ring and an empty index, any number of clients may connect, write,
  -- read, delete and close, each operation whole and in any order, with passes of `UringRun`
  -- between them, where a written record fits the client's buffer and its key is in no other
  -- clerk's batch, a read or deleted key has at most 4080 bytes, a read key is bound to a value
  -- of at most 120 bytes, or is not in the index and answered with false by the store, and a deleted
  -- key is not in the index. A reader then sees under each key the value last written, none where it
  -- was deleted since, and what the store had where there was neither.
  pub Runs-contents :
      (k : K) (qd : ℕ) (region : Mem) (store : S) (cs : List Change) (x : Hall K S T)
      → IsFresh u laws db h k qd
      → Runs u nic db h view (opened k qd h.empty region store) cs x
      → (j : Bytes) → contents h view x.server j ≡ replay cs (view store) j
  Runs-contents k qd region store cs x f run j =
      let (es, slot, w, sees) = Runs-Well k qd region store cs x f run in sees j

  -- On a server with a fresh ring and an empty index, after any steps as `Runs` has them, a `SendGet`
  -- of any connected client for a key of at most 4080 bytes
  -- returns the value that the steps have left under the key, if that has at most 120 bytes, and the
  -- server is left as it was.
  pub Runs-send_get :
      (k : K) (qd : ℕ) (region : Mem) (store : S) (cs : List Change) (x : Hall K S T) (i : ℕ)
      (d : Desk) (key val : Bytes)
      → IsFresh u laws db h k qd
      → Runs u nic db h view (opened k qd h.empty region store) cs x
      → x.desks i ≡ some d
      → 16 + length key ≤ max_request
      → length val ≤ 120
      → replay cs (view store) key ≡ some val
      → (y : Session S T) × (send_get nic db h key (session d x.server) ≡ done (some val, y))
        × (y.server ≡ x.server)
  Runs-send_get k qd region store cs x i d key val f run here small short bound =
      let (es, slot, w, sees) = Runs-Well k qd region store cs x f run in
      let (y, ran, same, inv) =
        send_get_value nic db h view store_laws (session d x.server) (es i) (slot i) key val
          (w.each i d here) small (sees key ∙ bound) short in
      (y, ran, same)

  -- After any such steps, and while some chunk is free, a `SendPut` or `SendUpdate` of any connected
  -- client returns, for a record that fits the client's buffer and whose key is in no other clerk's
  -- batch. A reader then sees the value under the key, and every other key as the steps left it.
  pub Runs-send_write :
      (k : K) (qd : ℕ) (region : Mem) (store : S) (cs : List Change) (x : Hall K S T) (i free : ℕ)
      (d : Desk) (op : Operation) (key val : Bytes)
      → IsFresh u laws db h k qd
      → Runs u nic db h view (opened k qd h.empty region store) cs x
      → x.desks i ≡ some d
      → IsWrite op
      → 16 + length key + length val ≤ max_request
      → Alone x i key
      → free < chunk_count
      → test x.server.bitmap free ≡ false
      → (y : Session S T) × (send_write nic db h op key val (session d x.server) ≡ done y)
        × ((j : Bytes)
            → contents h view y.server j
              ≡ (if bytes_eq key j then some val else replay cs (view store) j))
  Runs-send_write k qd region store cs x i free d op key val f run here is_write fits alone lt
        clear_bit =
      let (es, slot, w, sees) = Runs-Well k qd region store cs x f run in
      let (y, ran, served, now) =
        write-Well u laws nic db h map_laws view store_laws x es slot i d op key val w here is_write
          fits alone (λ full. (free, lt, clear_bit)) in
      (
        y,
        ran,
        λ j. now j ∙ ap (λ (o : Option Bytes). if bytes_eq key j then some val else o) (sees j),
      )
