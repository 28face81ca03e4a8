-- ===== src/Group/Solo.antt =====
-- A client of frontend/group/group.cc whose clerk leads a batch of its own request alone.
use pmraccess.Base.{
  ℕ, ◌+◌, ◌%◌, ◌≤◌, ◌≡◌, refl, ◌∙◌, ap, true, false, Option, some, [], ◌∷◌, arith, if◌then◌else◌,
  inl, inr, ◌⊎◌, length, ◌==◌, bytes_eq, bytes_eq_refl, Bytes, Mem, load, load32, load32-store32,
}
use pmraccess.Outcome.{done, ◌>>=◌}
use pmraccess.Wire.{
  Operation, put, update, delete, op_of, client_done, clerk_done, u16, reply_status, reply_val_size,
  put_write, put_key, max_request, ring_header,
}
use pmraccess.Wire.Transfer.{
  deliver, answer, set_header, Arrived, Arrived-deliver, Arrived-set_header, deliver_header,
  deliver_word, deliver_bytes, set_header_word, set_header_bytes, put_write-Arrived,
  put_write_header, put_key-Arrived, put_key_header, fill_key-done, fill_write-done, answer_sent,
}
use pmraccess.Rdma.Nic.{Nic}
use pmraccess.Store.{DbOps, DbLaws}
use pmraccess.Group.{Writer, build_batch_group, pop_until}
use pmraccess.Group.Batch.{
  key_of, val_of, size_of, Fits, taken, taken_nil, taken_more, build_batch_group_lem,
}
use pmraccess.Group.Commit.{after_puts, batch_puts, pop_until_lem}
use pmraccess.Group.Clerk.{
  Server, replied, commit, let_go, lead_until, lead, dispatch, turn, Session, collect, await,
  post_request, send_write, send_delete,
}

taken_one : (w : Writer) → Fits w → taken 0 (w ∷ []) ≡ w ∷ []
taken_one w fits = taken_more w [] 0 (ground arith) ∙ ap (◌∷◌ w) (taken_nil (0 + size_of w))

module _ {S : Type 0} (db : DbOps S) where
  -- The server after a batch of one writer.
  abbrev pub committed : Writer → Server S → Server S
  committed w s = commit db (build_batch_group (w ∷ []) s.batch).0 s

  lead_alone :
      (w : Writer) (s : Server S)
      → Fits w
      → lead db w [] [] s ≡ done (replied w.local_buf [] [] (committed w s))
  unfolding lead let_go lead_until
  lead_alone w s fits =
      let (holds, size, bound, chosen) = build_batch_group_lem (w ∷ []) s.batch (fits, tt) in
      let last : (build_batch_group (w ∷ []) s.batch).1 ≡ some w.id =
        rw (taken_one w fits) at chosen in
      let popped : pop_until w.id w.id (w ∷ []) ≡ some ([], []) =
        pop_until_lem w.id w.id w [] [] (tt, tt) refl ∙ rw (same w.id) in
      rw (last, popped)
    where
      same : (n : ℕ) → (n == n) ≡ true
      same n = ground arith

  committed_view :
      (view : S → Bytes → Option Bytes)
      → DbLaws db view
      → (w : Writer) (s : Server S) (j : Bytes) → Fits w
      → view (committed w s).db j ≡ (if bytes_eq (key_of w) j then some (val_of w) else view s.db j)
  unfolding commit
  committed_view view laws w s j fits =
      batch_puts db view laws (w ∷ []) s.batch s.db j (fits, tt)
      ∙ ap (λ ws. after_puts ws j (view s.db j)) (taken_one w fits)

-- The operations that go the way of the log.
abbrev pub IsLogged : Operation → Type 0
IsLogged op = (op ≡ put) ⊎ (op ≡ update) ⊎ (op ≡ delete)

op_of_word : (n : ℕ) → op_of n ≡ some delete → n ≡ 3
op_of_word n e = ground arith

dispatch_logged :
    {S : Type 0} (db : DbOps S) (op : Operation)
    → IsLogged op
    → (w : Writer) (s : Server S)
    → dispatch db (some op) w.id w.local_buf [] [] s ≡ lead db w [] [] s
unfolding dispatch
dispatch_logged db op (inl e) w s = rw e
dispatch_logged db op (inr (inl e)) w s = rw e
dispatch_logged db op (inr (inr e)) w s = rw e

-- A reply for which both buffers have room.
abbrev IsShort : Mem → Type 0
IsShort m = 8 + reply_val_size m 8 ≤ max_request

answer_header :
    (nic : Nic) (m m' : Mem) → IsShort m → load32 (answer max_request nic m m') 0 ≡ load32 m 0
answer_header nic m m' h =
    rw (answer_sent max_request nic m m' h) (deliver_header nic m m' (8 + reply_val_size m 8))

-- The first word of the reply is that of the clerk's buffer.
answer_status :
    (nic : Nic) (m m' : Mem)
    → IsShort m
    → reply_status (set_header (answer max_request nic m m') client_done) 8 ≡ load32 m 8
answer_status nic m m' h =
    set_header_word (answer max_request nic m m') client_done 8 (omega arith)
    ∙ rw (answer_sent max_request nic m m' h)
        (deliver_word nic m m' (8 + reply_val_size m 8) 8 (omega arith) (omega arith))

not_ok : (n : ℕ) → n % 256 ≡ 3 → (n == 0) ≡ false
not_ok n e = ground arith

load_nothing : (m : Mem) (a : ℕ) → load m a 0 ≡ []
unfolding load
load_nothing m a = refl

module _ {S : Type 0} (nic : Nic) (db : DbOps S) where
  -- The writer of a clerk whose client has put `buf` into its message buffer.
  abbrev writer : Mem → ℕ → Session S → Writer
  writer buf len x = record {
    id = 0;
    local_buf = set_header (deliver nic buf x.clerk_buf len) clerk_done;
  }

  -- What the client finds once the lone leader has answered with the request itself.
  abbrev echoed : Writer → Session S → Mem
  echoed w y = set_header (answer max_request nic w.local_buf y.client_buf) client_done

  writer-Arrived :
      (buf : Mem) (len : ℕ) (x : Session S) (op : Operation) (key : Bytes) (n : ℕ)
      → Arrived buf op key n
      → 8 + length key ≤ len
      → Arrived (writer buf len x).local_buf op key n
  writer-Arrived buf len x op key n a h =
      Arrived-set_header (deliver nic buf x.clerk_buf len) clerk_done op key n
        (Arrived-deliver nic buf x.clerk_buf len op key n a h)

  -- A logged request of a client whose clerk leads alone: the wait ends, and what comes back is the
  -- request.
  await_logged :
      (buf : Mem) (len : ℕ) (x : Session S) (op : Operation) (key : Bytes) (n : ℕ)
      → IsLogged op
      → load32 buf 0 ≡ client_done
      → Arrived buf op key n
      → 8 + length key ≤ len
      → 8 + length key + n ≤ 4096
      → let w = writer buf len x in
        await nic db (post_request nic db buf len x)
        ≡ done (record {
          client_buf = echoed w (post_request nic db buf len x);
          clerk_buf = w.local_buf;
          server = committed db w x.server;
        })
  unfolding await post_request collect turn
  await_logged buf len x op key n l f a h small =
      let w : Writer = writer buf len x in
      let arrived : Arrived w.local_buf op key n = writer-Arrived buf len x op key n a h in
      let fits : Fits w = omega (arith, arrived.key_field, arrived.val_field) in
      let asked : load32 (deliver nic buf x.clerk_buf len) 0 ≡ client_done =
        deliver_header nic buf x.clerk_buf len ∙ f in
      let up : load32 (answer max_request nic w.local_buf buf) 0 ≡ clerk_done =
        answer_header nic w.local_buf buf (omega (arith, arrived.val_field))
        ∙ load32-store32 (deliver nic buf x.clerk_buf len) 0 clerk_done (omega arith) in
      rw (
        asked,
        arrived.op_field,
        dispatch_logged db op l w x.server,
        lead_alone db w x.server fits,
        up,
      )

  module _ (view : S → Bytes → Option Bytes) (laws : DbLaws db view) where
    -- A put or an update of a record of at most 4096 bytes, by a client whose clerk finds no other
    -- writer in the queue, returns, over a store that keeps the laws of `DbLaws`: a reader of the
    -- store sees the key bound to the value and every other key as before, and the client is ready
    -- for the next request.
    pub group_write_lem :
        (x : Session S) (op : Operation) (key val : Bytes)
        → (op ≡ put) ⊎ (op ≡ update)
        → load32 x.client_buf 0 ≡ client_done
        → 8 + length key + length val ≤ 4096
        → (y : Session S) × (send_write nic db op key val x ≡ done y)
          × ((j : Bytes)
              → view y.server.db j ≡ (if bytes_eq key j then some val else view x.server.db j))
          × (load32 y.client_buf 0 ≡ client_done)
    unfolding send_write
    group_write_lem x op key val kind f small =
        let n : ℕ = 8 + length key + length val in
        let len : u16 (8 + u16 (length key) + u16 (length val)) ≡ n = omega arith in
        let buf : Mem = put_write x.client_buf op key val in
        let (a, bytes) = put_write-Arrived x.client_buf op key val (omega arith) (omega arith) in
        let w : Writer = writer buf n x in
        let arrived : Arrived w.local_buf op key (length val) =
          writer-Arrived buf n x op key (length val) a (omega arith) in
        let fits : Fits w = omega (arith, arrived.key_field, arrived.val_field) in
        let value : load w.local_buf (16 + length key) (length val) ≡ val =
          set_header_bytes (deliver nic buf x.clerk_buf n) clerk_done (16 + length key) (length val)
            (omega arith)
          ∙ deliver_bytes nic buf x.clerk_buf n (16 + length key) (length val) (omega arith)
              (omega arith)
          ∙ bytes in
        (
          _,
          ap
                (λ o. o >>= λ m.
                  await nic db
                    (post_request nic db m (u16 (8 + u16 (length key) + u16 (length val))) x))
                (fill_write-done (max_request + ring_header) x.client_buf op key val (omega arith))
              ∙ ap (λ m. await nic db (post_request nic db buf m x)) len
              ∙ await_logged buf n x op key (length val) (logged kind)
                  (put_write_header x.client_buf op key val ∙ f) a (omega arith) small,
          λ j.
              committed_view db view laws w x.server j fits
              ∙ rw (arrived.key_field, arrived.val_field, arrived.key_bytes, value),
          load32-store32 (answer max_request nic w.local_buf buf) 0 client_done (omega arith),
        )
      where
        logged : (op ≡ put) ⊎ (op ≡ update) → IsLogged op
        logged (inl e) = inl e
        logged (inr e) = inr (inl e)

    -- A `SendDelete` of at most 4096 bytes by a client whose clerk finds no other writer in the
    -- queue returns false, although nothing failed, and leaves the key bound to the empty value:
    -- the clerk logs the request as a put, and sets no reply.
    pub group_delete_lem :
        (x : Session S) (key : Bytes)
        → load32 x.client_buf 0 ≡ client_done
        → 8 + length key ≤ 4096
        → (y : Session S) × (send_delete nic db key x ≡ done (false, y))
          × (view y.server.db key ≡ some [])
    unfolding send_delete
    group_delete_lem x key f small =
        let n : ℕ = 8 + length key in
        let len : u16 (8 + u16 (length key)) ≡ n = omega arith in
        let buf : Mem = put_key x.client_buf delete key in
        let a : Arrived buf delete key 0 = put_key-Arrived x.client_buf delete key (omega arith) in
        let w : Writer = writer buf n x in
        let arrived : Arrived w.local_buf delete key 0 =
          writer-Arrived buf n x delete key 0 a (omega arith) in
        let fits : Fits w = omega (arith, arrived.key_field, arrived.val_field) in
        let waited =
          await_logged buf n x delete key 0 (inr (inr refl))
            (put_key_header x.client_buf delete key ∙ f) a (omega arith) (omega arith) in
        let status : reply_status (echoed w (post_request nic db buf n x)) 8
            ≡ load32 w.local_buf 8 =
          answer_status nic w.local_buf buf (omega (arith, arrived.val_field)) in
        let three : load32 w.local_buf 8 % 256 ≡ 3 =
          op_of_word (load32 w.local_buf 8 % 256) arrived.op_field in
        let empty : some (load w.local_buf (16 + length key) 0) ≡ some [] =
          ap some (load_nothing w.local_buf (16 + length key)) in
        (
          record {
            client_buf = echoed w (post_request nic db buf n x);
            clerk_buf = w.local_buf;
            server = committed db w x.server;
          },
          rw (fill_key-done (max_request + ring_header) x.client_buf delete key (omega arith)) (
              ap
                (λ m. await nic db (post_request nic db buf m x) >>= λ y.
                  done (reply_status (y.client_buf) 8 == 0, y))
                len
              ∙ rw (waited, status, not_ok (load32 w.local_buf 8) three)),
          committed_view db view laws w x.server key fits
              ∙ rw (arrived.key_field, arrived.val_field, arrived.key_bytes, bytes_eq_refl key)
                  empty,
        )
