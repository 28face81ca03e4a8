-- ===== src/Wire.antt =====
-- frontend/request.h and the constants of frontend/cs.h: the request and reply headers that
-- clients and clerks exchange through registered memory, laid out as GCC does on x86-64.
pub mod RoundTrip
pub mod Transfer
use pmraccess.Outcome.{Outcome, done, aborted}
use pmraccess.Base.{
  ℕ, ◌+◌, ◌*◌, ◌/◌, ◌%◌, ◌^◌, leb, Bool, Option, none, some, ◌==◌, if◌then◌else◌, length, take,
  Bytes, Mem, store, load32, store32,
}

-- `enum Operation`
pub data Operation : Type 0 where
  put get update delete close alloc : Operation

-- `enum RequestStatus`
pub data RequestStatus : Type 0 where
  ok not_found error : RequestStatus

abbrev pub op_code : Operation → ℕ
op_code put = 0
op_code get = 1
op_code update = 2
op_code delete = 3
op_code close = 4
op_code alloc = 5

-- What the `switch` of a clerk makes of the stored number; `none` is its `default`.
abbrev pub op_of : ℕ → Option Operation
op_of n =
    if n == 0
    then some put
    else if n == 1
    then some get
    else if n == 2
    then some update
    else if n == 3
    then some delete
    else if n == 4
    then some close
    else if n == 5
    then some alloc
    else none

abbrev pub status_code : RequestStatus → ℕ
status_code ok = 0
status_code not_found = 1
status_code error = 2

-- `sizeof(Request)` and `sizeof(RequestReply)`: two 32-bit words, then the flexible array.
abbrev pub header_size : ℕ
header_size = 8

abbrev pub max_request : ℕ
max_request = 4096

-- `RDMAContext::MAX_INLINE_SIZE` and `SEND_BUF_SIZE`
abbrev pub max_inline_size : ℕ
max_inline_size = 128

abbrev pub send_buf_size : ℕ
send_buf_size = 1024 * 1024

abbrev pub ring_header : ℕ
ring_header = 8

abbrev pub max_async_size : ℕ
max_async_size = 32768

abbrev pub client_done : ℕ
client_done = 0x7f7f7f7f

abbrev pub clerk_done : ℕ
clerk_done = 0xf7f7f7f7

-- `uint16_t` and `uint32_t`
abbrev pub u16 : ℕ → ℕ
u16 n = n % 2 ^ 16

abbrev pub u32 : ℕ → ℕ
u32 n = n % 2 ^ 32

-- The first word of a `Request`: `op : 8` is its low byte, `key_size : 24` the rest.
abbrev pub op_word : ℕ → ℕ → ℕ
op_word op key_size = op % 256 + 256 * (key_size % 2 ^ 24)

-- The three assignments to the fields of the `Request` at `a`.
unfoldable pub put_request : Mem → ℕ → Operation → ℕ → ℕ → Mem
put_request m a op key_size val_size =
    store32 (store32 m a (op_word (op_code op) key_size)) (a + 4) (u32 val_size)

abbrev pub request_op : Mem → ℕ → Option Operation
request_op m a = op_of (load32 m a % 256)

abbrev pub request_key_size : Mem → ℕ → ℕ
request_key_size m a = load32 m a / 256

abbrev pub request_val_size : Mem → ℕ → ℕ
request_val_size m a = load32 m (a + 4)

-- `Request::Length`
abbrev pub request_length : Mem → ℕ → ℕ
request_length m a = u32 (header_size + request_key_size m a + request_val_size m a)

-- The assignments to `reply->status`, `reply->val_size` and `reply->value`, for a value that the
-- buffer has room for: a reply without one, the four bytes of an offset, or one that `put_value` lets
-- through.
unfoldable pub put_reply : Mem → ℕ → RequestStatus → Bytes → Mem
put_reply m a st value =
    store (store32 (store32 m a (status_code st)) (a + 4) (u32 (length value))) (a + 8) value

-- The reply of GET to a key that is found, with its `memcpy` into a buffer of `size` bytes. A value
-- that runs over the end of the buffer overwrites what lies behind it: the model ends there.
unfoldable pub put_value : ℕ → Mem → Bytes → Outcome Mem
put_value size buf value =
    if leb (ring_header + header_size + length value) size
    then done (put_reply buf ring_header ok value)
    else aborted

abbrev pub reply_status : Mem → ℕ → ℕ
reply_status m a = load32 m a

abbrev pub reply_val_size : Mem → ℕ → ℕ
reply_val_size m a = load32 m (a + 4)

-- A request with its key and its value, in a buffer that has room for them.
unfoldable pub put_write : Mem → Operation → Bytes → Bytes → Mem
put_write buf op key val =
    let key_len = u16 (length key) in
    let val_len = u16 (length val) in
    store
      (store (put_request buf ring_header op key_len val_len) (ring_header + header_size)
        (take key_len key))
      (ring_header + header_size + key_len) (take val_len val)

-- The record that every `SendWrite` prepares at `local_buf_ + RING_HEADER`, in a buffer of `size`
-- bytes: the lengths are `uint16_t`, and so are the numbers of bytes that `memcpy` moves. A record
-- that runs over the end of the buffer overwrites what lies behind it: the model ends there.
unfoldable pub fill_write : ℕ → Mem → Operation → Bytes → Bytes → Outcome Mem
unfolding put_write
fill_write size buf op key val =
    if leb (ring_header + header_size + u16 (length key) + u16 (length val)) size
    then done (put_write buf op key val)
    else aborted

-- A request with its key, in a buffer that has room for them.
unfoldable pub put_key : Mem → Operation → Bytes → Mem
put_key buf op key =
    store (put_request buf ring_header op (length key) 0) (ring_header + header_size) key

-- The record of `SendGet` and `SendDelete` in a buffer of `size` bytes: `key_size` and `memcpy` take
-- `strlen(key)` whole. A key that runs over the end of the buffer overwrites what lies behind it: the
-- model ends there.
unfoldable pub fill_key : ℕ → Mem → Operation → Bytes → Outcome Mem
unfolding put_key
fill_key size buf op key =
    if leb (ring_header + header_size + length key) size then done (put_key buf op key) else aborted

-- The record of `SendClose` and `SendAlloc`.
unfoldable pub fill_bare : Mem → Operation → Mem
fill_bare buf op = put_request buf ring_header op 0 0
