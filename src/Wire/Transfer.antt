-- ===== src/Wire/Transfer.antt =====
-- The exchange of a request and its reply: the record at `RING_HEADER`, then the flag word at 0, by
-- two posted writes, as every front end of frontend/ sends both.
use pmraccess.Base.{
  ℕ, ◌+◌, ◌^◌, leb, if◌then◌else◌, ◌<◌, ◌≤◌, ◌≡◌, refl, ◌∙◌, some, [], arith, length, take, Bytes,
  Mem, store, load, store32, load32, load32-Agree, load-Agree, store-load_same, take_all,
  length-load, load-store_self, load-store_below, store_above, store32_above,
}
use pmraccess.Wire.{
  Operation, RequestStatus, header_size, ring_header, u16, put_request, request_op,
  request_key_size, request_val_size, put_reply, reply_status, reply_val_size, status_code,
  put_write, put_key, fill_bare, fill_key, fill_write, put_value, ok, max_inline_size,
}
use pmraccess.Wire.RoundTrip.{
  request_roundtrip, reply_roundtrip, put_request_below, put_reply_below, load32-store_below,
}
use pmraccess.Rdma.Nic.{Nic}
use pmraccess.Outcome.{done}

-- `post_write…(len, RING_HEADER, RING_HEADER)` and `post_write…(sizeof(uint32_t), 0, 0)`.
unfoldable pub deliver : Nic → Mem → Mem → ℕ → Mem
deliver nic src dst len = nic.write src 0 (nic.write src ring_header dst ring_header len) 0 4

-- `*header_ = CLIENT_DONE` after the wait, and `*header = CLERK_DONE`.
abbrev pub set_header : Mem → ℕ → Mem
set_header m flag = store32 m 0 flag

pub deliver_flag :
    (nic : Nic) (src dst : Mem) (len i : ℕ) → i < 4 → deliver nic src dst len i ≡ src i
unfolding deliver
deliver_flag nic src dst len i h =
    rw (nic.write_lem src 0 (nic.write src 8 dst 8 len) 0 4)
      (store-load_same (nic.write src 8 dst 8 len) src 0 4 i (omega arith) (omega arith))

pub deliver_record :
    (nic : Nic) (src dst : Mem) (len i : ℕ)
    → 8 ≤ i
    → i < 8 + len
    → deliver nic src dst len i ≡ src i
unfolding deliver
deliver_record nic src dst len i h k = rw (nic.write_lem src 0 (nic.write src 8 dst 8 len) 0 4) (
    store_above (nic.write src 8 dst 8 len) 0 (load src 0 4) i (omega (arith, length-load src 0 4))
    ∙ rw (nic.write_lem src 8 dst 8 len) (store-load_same dst src 8 len i h k))

pub deliver_header :
    (nic : Nic) (src dst : Mem) (len : ℕ) → load32 (deliver nic src dst len) 0 ≡ load32 src 0
deliver_header nic src dst len =
    load32-Agree (deliver nic src dst len) src 0
      (λ i p q. deliver_flag nic src dst len i (omega arith))

pub deliver_word :
    (nic : Nic) (src dst : Mem) (len a : ℕ)
    → 8 ≤ a
    → a + 4 ≤ 8 + len
    → load32 (deliver nic src dst len) a ≡ load32 src a
deliver_word nic src dst len a h k =
    load32-Agree (deliver nic src dst len) src a
      (λ i p q. deliver_record nic src dst len i (omega arith) (omega arith))

pub deliver_bytes :
    (nic : Nic) (src dst : Mem) (len a n : ℕ)
    → 8 ≤ a
    → a + n ≤ 8 + len
    → load (deliver nic src dst len) a n ≡ load src a n
deliver_bytes nic src dst len a n h k =
    load-Agree (deliver nic src dst len) src a n
      (λ i p q. deliver_record nic src dst len i (omega arith) (omega arith))

-- The flag word is apart from the record.
pub set_header_word : (m : Mem) (flag a : ℕ) → 8 ≤ a → load32 (set_header m flag) a ≡ load32 m a
set_header_word m flag a h =
    load32-Agree (set_header m flag) m a (λ i p q. store32_above m 0 flag i (omega arith))

pub set_header_bytes : (m : Mem) (flag a n : ℕ) → 8 ≤ a → load (set_header m flag) a n ≡ load m a n
set_header_bytes m flag a n h =
    load-Agree (set_header m flag) m a n (λ i p q. store32_above m 0 flag i (omega arith))

-- What a clerk finds in its buffer: a request with its key.
pub record Arrived (m : Mem) (op : Operation) (key : Bytes) (val_size : ℕ) : Type 0 where
  pub op_field : request_op m 8 ≡ some op
  pub key_field : request_key_size m 8 ≡ length key
  pub val_field : request_val_size m 8 ≡ val_size
  pub key_bytes : load m 16 (length key) ≡ key

pub Arrived-deliver :
    (nic : Nic) (src dst : Mem) (len : ℕ) (op : Operation) (key : Bytes) (val_size : ℕ)
    → Arrived src op key val_size
    → 8 + length key ≤ len
    → Arrived (deliver nic src dst len) op key val_size
Arrived-deliver nic src dst len op key val_size a h = record {
  op_field = rw (deliver_word nic src dst len 8 (omega arith) (omega arith)) a.op_field;
  key_field = rw (deliver_word nic src dst len 8 (omega arith) (omega arith)) a.key_field;
  val_field = rw (deliver_word nic src dst len 12 (omega arith) (omega arith)) a.val_field;
  key_bytes =
      rw (deliver_bytes nic src dst len 16 (length key) (omega arith) (omega arith)) a.key_bytes;
}

-- Setting the flag leaves the request in place.
pub Arrived-set_header :
    (m : Mem) (flag : ℕ) (op : Operation) (key : Bytes) (val_size : ℕ)
    → Arrived m op key val_size
    → Arrived (set_header m flag) op key val_size
Arrived-set_header m flag op key val_size a = record {
  op_field = rw (set_header_word m flag 8 (omega arith)) a.op_field;
  key_field = rw (set_header_word m flag 8 (omega arith)) a.key_field;
  val_field = rw (set_header_word m flag 12 (omega arith)) a.val_field;
  key_bytes = rw (set_header_bytes m flag 16 (length key) (omega arith)) a.key_bytes;
}

-- Bytes stored from 16 on leave the header of the request in place.
header-store :
    (m : Mem) (b : ℕ) (bs : Bytes) (a : ℕ)
    → a + 4 ≤ 16
    → 16 ≤ b
    → load32 (store m b bs) a ≡ load32 m a
header-store m b bs a h k = load32-store_below m a b bs (omega arith)

module _ (buf : Mem) (op : Operation) (key : Bytes) where
  pub put_key-Arrived : length key < 2 ^ 24 → Arrived (put_key buf op key) op key 0
  unfolding put_key
  put_key-Arrived h =
      let r : Mem = put_request buf 8 op (length key) 0 in
      let (ro, rk, rv) = request_roundtrip buf 8 op (length key) 0 h (omega arith) in
      record {
        op_field = rw (header-store r 16 key 8 (omega arith) (omega arith)) ro;
        key_field = rw (header-store r 16 key 8 (omega arith) (omega arith)) rk;
        val_field = rw (header-store r 16 key 12 (omega arith) (omega arith)) rv;
        key_bytes = load-store_self r 16 key;
      }

  pub put_write-Arrived :
      (val : Bytes)
      → length key < 2 ^ 16
      → length val < 2 ^ 16
      → Arrived (put_write buf op key val) op key (length val)
        × (load (put_write buf op key val) (16 + length key) (length val) ≡ val)
  unfolding put_write
  put_write-Arrived val hk hv =
      let kl : u16 (length key) ≡ length key = omega arith in
      let vl : u16 (length val) ≡ length val = omega arith in
      let r : Mem = put_request buf 8 op (length key) (length val) in
      let k : Mem = store r 16 key in
      let (ro, rk, rv) =
        request_roundtrip buf 8 op (length key) (length val) (omega arith) (omega arith) in
      let word = λ (a : ℕ) (h : a + 4 ≤ 16).
        header-store k (16 + length key) val a h (omega arith)
        ∙ header-store r 16 key a h (omega arith) in
      rw (kl, vl, take_all (length key) key (omega arith), take_all (length val) val (omega arith))
        (
          record {
            op_field = rw (word 8 (omega arith)) ro;
            key_field = rw (word 8 (omega arith)) rk;
            val_field = rw (word 12 (omega arith)) rv;
            key_bytes =
                load-store_below k 16 (length key) (16 + length key) val (omega arith)
                ∙ load-store_self r 16 key;
          },
          load-store_self k (16 + length key) val,
        )

pub fill_bare-Arrived : (buf : Mem) (op : Operation) → Arrived (fill_bare buf op) op [] 0
unfolding fill_bare load
fill_bare-Arrived buf op =
    let (ro, rk, rv) = request_roundtrip buf 8 op 0 0 (omega arith) (omega arith) in
    record { op_field = ro; key_field = rk; val_field = rv; key_bytes = refl }

put_request_header :
    (buf : Mem) (op : Operation) (ks vs : ℕ) → load32 (put_request buf 8 op ks vs) 0 ≡ load32 buf 0
put_request_header buf op ks vs =
    load32-Agree (put_request buf 8 op ks vs) buf 0
      (λ i p q. put_request_below buf 8 op ks vs i (omega arith))

-- Preparing a record leaves the flag word in place.
pub put_write_header :
    (buf : Mem) (op : Operation) (key val : Bytes)
    → load32 (put_write buf op key val) 0 ≡ load32 buf 0
unfolding put_write
put_write_header buf op key val =
    let kl : ℕ = u16 (length key) in
    let vl : ℕ = u16 (length val) in
    let r : Mem = put_request buf 8 op kl vl in
    load32-store_below (store r 16 (take kl key)) 0 (8 + 8 + kl) (take vl val) (omega arith)
    ∙ load32-store_below r 0 16 (take kl key) (omega arith)
    ∙ put_request_header buf op kl vl

pub put_key_header :
    (buf : Mem) (op : Operation) (key : Bytes) → load32 (put_key buf op key) 0 ≡ load32 buf 0
unfolding put_key
put_key_header buf op key =
    load32-store_below (put_request buf 8 op (length key) 0) 0 16 key (omega arith)
    ∙ put_request_header buf op (length key) 0

pub fill_bare_header : (buf : Mem) (op : Operation) → load32 (fill_bare buf op) 0 ≡ load32 buf 0
unfolding fill_bare
fill_bare_header buf op = put_request_header buf op 0 0

-- What a client finds in its buffer: a reply with its value.
pub record Answered (m : Mem) (st : RequestStatus) (value : Bytes) : Type 0 where
  pub status_field : reply_status m 8 ≡ status_code st
  pub size_field : reply_val_size m 8 ≡ length value
  pub value_bytes : load m 16 (length value) ≡ value

-- The buffer of a client after a clerk has posted `sizeof(RequestReply) + reply->val_size` bytes and
-- its flag. A reply longer than `limit` is refused: the queue pair goes to the error state, and neither
-- the reply nor the flag behind it arrives. With `post_write1`, `limit` is `MAX_INLINE_SIZE`: a longer
-- message is gathered from `send_buf` with the key of `write_mr`, which does not cover it. With
-- `post_write`, it is what both buffers have room for.
unfoldable pub answer : ℕ → Nic → Mem → Mem → Mem
unfolding deliver
answer limit nic sb cb =
    if leb (header_size + reply_val_size sb 8) limit
    then deliver nic sb cb (header_size + reply_val_size sb 8)
    else cb

pub answer_sent :
    (limit : ℕ) (nic : Nic) (sb cb : Mem)
    → 8 + reply_val_size sb 8 ≤ limit
    → answer limit nic sb cb ≡ deliver nic sb cb (8 + reply_val_size sb 8)
unfolding answer
answer_sent limit nic sb cb h = ground (arith, h)

pub answer_refused :
    (limit : ℕ) (nic : Nic) (sb cb : Mem)
    → limit < 8 + reply_val_size sb 8
    → answer limit nic sb cb ≡ cb
unfolding answer
answer_refused limit nic sb cb h = ground (arith, h)

pub fill_key-done :
    (size : ℕ) (buf : Mem) (op : Operation) (key : Bytes)
    → 16 + length key ≤ size
    → fill_key size buf op key ≡ done (put_key buf op key)
unfolding fill_key
fill_key-done size buf op key h = ground (arith, h)

pub fill_write-done :
    (size : ℕ) (buf : Mem) (op : Operation) (key val : Bytes)
    → 16 + length key + length val ≤ size
    → fill_write size buf op key val ≡ done (put_write buf op key val)
unfolding fill_write
fill_write-done size buf op key val h =
    let room : 16 + u16 (length key) + u16 (length val) ≤ size = omega (arith, h) in
    ground (arith, room)

pub put_value-done :
    (size : ℕ) (buf : Mem) (v : Bytes)
    → 16 + length v ≤ size
    → put_value size buf v ≡ done (put_reply buf 8 ok v)
unfolding put_value
put_value-done size buf v h = ground (arith, h)

-- The reply of a clerk, with a value of at most 120 bytes, reaches the client whole, with the flag
-- that the clerk had set, and stays in place when the client sets its own.
pub answer_lem :
    (nic : Nic) (sb cb : Mem) (st : RequestStatus) (v : Bytes) (flag : ℕ)
    → length v ≤ 120
    → let d = answer max_inline_size nic (put_reply sb 8 st v) cb in
      (load32 d 0 ≡ load32 sb 0) × Answered (set_header d flag) st v
answer_lem nic sb cb st v flag h =
    let sb' : Mem = put_reply sb 8 st v in
    let (rs, rl, rv) = reply_roundtrip sb 8 st v (omega arith) in
    let len : ℕ = 8 + reply_val_size sb' 8 in
    let sent : answer max_inline_size nic sb' cb ≡ deliver nic sb' cb len =
      answer_sent max_inline_size nic sb' cb (omega (arith, rl)) in
    let word = λ (a : ℕ) (p : 8 ≤ a) (q : a + 4 ≤ 16).
      set_header_word (deliver nic sb' cb len) flag a p
      ∙ deliver_word nic sb' cb len a p (omega arith) in
    rw sent (
      deliver_header nic sb' cb len
          ∙ load32-Agree sb' sb 0 (λ i p q. put_reply_below sb 8 st v i (omega arith)),
      record {
        status_field = rw (word 8 (omega arith) (omega arith)) rs;
        size_field = rw (word 12 (omega arith) (omega arith)) rl;
        value_bytes =
            set_header_bytes (deliver nic sb' cb len) flag 16 (length v) (omega arith)
            ∙ deliver_bytes nic sb' cb len 16 (length v) (omega arith) (omega arith)
            ∙ rv;
      },
    )
