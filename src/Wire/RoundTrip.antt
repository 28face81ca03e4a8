-- ===== src/Wire/RoundTrip.antt =====
-- What a clerk reads from the headers of frontend/request.h is what the client stored, and back.
use pmraccess.Base.{
  ℕ, ◌+◌, ◌%◌, ◌^◌, ◌<◌, ◌≤◌, ◌≡◌, refl, ◌∙◌, ap, some, arith, length, Bytes, Mem, load, store,
  load32, store32, load32-store32, load32-Agree, store32_below, store_below, load-store_self,
}
use pmraccess.Wire.{
  Operation, op_code, op_of, put, get, update, delete, close, alloc, RequestStatus, ok, not_found,
  error, status_code, op_word, put_request, request_op, request_key_size, request_val_size,
  put_reply, reply_status, reply_val_size, u32,
}

pub op_of-op_code : (op : Operation) → op_of (op_code op) ≡ some op
op_of-op_code put = refl
op_of-op_code get = refl
op_of-op_code update = refl
op_of-op_code delete = refl
op_of-op_code close = refl
op_of-op_code alloc = refl

op_code-lt : (op : Operation) → op_code op < 256
op_code-lt put = omega arith
op_code-lt get = omega arith
op_code-lt update = omega arith
op_code-lt delete = omega arith
op_code-lt close = omega arith
op_code-lt alloc = omega arith

status_code-lt : (s : RequestStatus) → status_code s < 2 ^ 32
status_code-lt ok = omega arith
status_code-lt not_found = omega arith
status_code-lt error = omega arith

pub load32-store32_below : (m : Mem) (a b n : ℕ) → a + 4 ≤ b → load32 (store32 m b n) a ≡ load32 m a
load32-store32_below m a b n h =
    load32-Agree (store32 m b n) m a (λ i p q. store32_below m b n i (omega arith))

pub load32-store_below :
    (m : Mem) (a b : ℕ) (bs : Bytes) → a + 4 ≤ b → load32 (store m b bs) a ≡ load32 m a
load32-store_below m a b bs h =
    load32-Agree (store m b bs) m a (λ i p q. store_below m b bs i (omega arith))

module _ (m : Mem) (a : ℕ) (op : Operation) (ks vs : ℕ) (hk : ks < 2 ^ 24) (hv : vs < 2 ^ 32) where
  first_word : load32 (put_request m a op ks vs) a ≡ op_word (op_code op) ks
  unfolding put_request
  first_word =
      load32-store32_below (store32 m a (op_word (op_code op) ks)) a (a + 4) (u32 vs) (omega arith)
      ∙ load32-store32 m a (op_word (op_code op) ks) (omega (arith, op_code-lt op))

  pub request_op-put_request : request_op (put_request m a op ks vs) a ≡ some op
  request_op-put_request =
      let low : load32 (put_request m a op ks vs) a % 256 ≡ op_code op =
        omega (arith, first_word, op_code-lt op) in
      ap op_of low ∙ op_of-op_code op

  pub request_key_size-put_request : request_key_size (put_request m a op ks vs) a ≡ ks
  request_key_size-put_request = omega (arith, first_word, op_code-lt op)

  pub request_val_size-put_request : request_val_size (put_request m a op ks vs) a ≡ vs
  unfolding put_request
  request_val_size-put_request =
      load32-store32 (store32 m a (op_word (op_code op) ks)) (a + 4) (u32 vs) (omega arith)
      ∙ omega arith

-- The header of a request with a key shorter than 2^24 and a value shorter than 2^32 is read back
-- as it was written: the operation, the length of the key and that of the value.
pub request_roundtrip :
    (m : Mem) (a : ℕ) (op : Operation) (ks vs : ℕ)
    → ks < 2 ^ 24
    → vs < 2 ^ 32
    → let r = put_request m a op ks vs in
      (request_op r a ≡ some op) × (request_key_size r a ≡ ks) × (request_val_size r a ≡ vs)
request_roundtrip m a op ks vs hk hv = (
  request_op-put_request m a op ks vs hk hv,
  request_key_size-put_request m a op ks vs hk hv,
  request_val_size-put_request m a op ks vs hk hv,
)

pub put_request_below :
    (m : Mem) (a : ℕ) (op : Operation) (ks vs i : ℕ) → i < a → put_request m a op ks vs i ≡ m i
unfolding put_request
put_request_below m a op ks vs i h =
    store32_below (store32 m a (op_word (op_code op) ks)) (a + 4) (u32 vs) i (omega arith)
    ∙ store32_below m a (op_word (op_code op) ks) i h

pub put_reply_below :
    (m : Mem) (a : ℕ) (st : RequestStatus) (v : Bytes) (i : ℕ) → i < a → put_reply m a st v i ≡ m i
unfolding put_reply
put_reply_below m a st v i h =
    store_below (store32 (store32 m a (status_code st)) (a + 4) (u32 (length v))) (a + 8) v i
      (omega arith)
    ∙ store32_below (store32 m a (status_code st)) (a + 4) (u32 (length v)) i (omega arith)
    ∙ store32_below m a (status_code st) i h

-- A reply with a value shorter than 2^32 is read back as it was written: the status, the length and
-- the bytes of the value.
pub reply_roundtrip :
    (m : Mem) (a : ℕ) (st : RequestStatus) (v : Bytes)
    → length v < 2 ^ 32
    → let r = put_reply m a st v in
      (reply_status r a ≡ status_code st)
      × (reply_val_size r a ≡ length v)
      × (load r (a + 8) (length v) ≡ v)
unfolding put_reply
reply_roundtrip m a st v h = (
  load32-store_below m2 a (a + 8) v (omega arith)
      ∙ load32-store32_below m1 a (a + 4) (u32 (length v)) (omega arith)
      ∙ load32-store32 m a (status_code st) (status_code-lt st),
  load32-store_below m2 (a + 4) (a + 8) v (omega arith)
      ∙ load32-store32 m1 (a + 4) (u32 (length v)) (omega arith)
      ∙ omega arith,
  load-store_self m2 (a + 8) v,
)
  where
    m1 : Mem
    m1 = store32 m a (status_code st)

    m2 : Mem
    m2 = store32 m1 (a + 4) (u32 (length v))
