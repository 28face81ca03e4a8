-- ===== src/Rdma/Post.antt =====
-- The `post_*` functions of rdmautil/rdmautil.cc: the work request that each builds, the copy of the
-- message into the registered buffer, and what it returns.
use pmraccess.Base.{ℕ, ◌+◌, Bool, false, Option, none, some, leb, take, Bytes, Mem, store}
use pmraccess.Rdma.Context.{Context}

abbrev pub max_inline_size : ℕ
max_inline_size = 128

-- `struct ibv_sge`
pub record Sge : Type 0 where
  pub addr : ℕ
  pub length : ℕ
  pub lkey : ℕ

-- The opcodes of `ibv_send_wr` in use.
pub data Opcode : Type 0 where
  send rdma_write rdma_read cmp_and_swp : Opcode

-- `struct ibv_send_wr`: the flags `IBV_SEND_SIGNALED` and `IBV_SEND_INLINE`, and the union of
-- `wr.rdma` and `wr.atomic`. What is not set is 0.
pub record SendWr : Type 0 where
  pub sg : Sge
  pub opcode : Opcode
  pub signaled : Bool
  pub inlined : Bool
  pub remote_addr : ℕ
  pub rkey : ℕ
  pub compare_add : ℕ
  pub swap : ℕ

-- `memcpy(address, msg, msg_len)` where there is a message; memory is addressed as the process does.
unfoldable pub copy_message : Option Bytes → ℕ → ℕ → Mem → Mem
copy_message none msg_len address m = m
copy_message (some msg) msg_len address m = store m address (take msg_len msg)

-- A post as a whole: the memory before `ibv_post_send`, the request, and the number that
-- `ibv_post_send` answers, which is returned in every case.
pub record Posted : Type 0 where
  pub memory : Mem
  pub wr : SendWr

abbrev pub rdma_wr : Opcode → Sge → Bool → Bool → ℕ → ℕ → SendWr
rdma_wr opcode sg signaled inlined remote_addr rkey = record {
  sg = sg;
  opcode = opcode;
  signaled = signaled;
  inlined = inlined;
  remote_addr = remote_addr;
  rkey = rkey;
  compare_add = 0;
  swap = 0;
}

unfoldable pub post_send : Context → Option Bytes → ℕ → ℕ → Bool → Mem → Posted
unfolding copy_message
post_send c msg msg_len local_offset signal m = record {
  memory = copy_message msg msg_len (c.send_buf + local_offset) m;
  wr =
      rdma_wr send
        (record { addr = c.send_buf + local_offset; length = msg_len; lkey = c.send_mr.lkey })
        signal false 0 0;
}

-- The entry of `ibv_recv_wr`.
unfoldable pub post_recv : Context → ℕ → ℕ → Sge
post_recv c msg_len offset = record {
  addr = c.send_buf + offset;
  length = msg_len;
  lkey = c.send_mr.lkey;
}

unfoldable pub post_read : Context → ℕ → ℕ → ℕ → Bool → SendWr
post_read c msg_len local_offset remote_offset signal =
    rdma_wr rdma_read
      (record {
        addr = c.write_buf + c.dmaoff + local_offset;
        length = msg_len;
        lkey = c.write_mr.lkey;
      })
      signal false (c.remote.addr + remote_offset) c.remote.rkey

unfoldable pub post_write : Context → Option Bytes → ℕ → ℕ → ℕ → Bool → Mem → Posted
unfolding copy_message
post_write c msg msg_len local_offset remote_offset signal m =
    let address = c.write_buf + c.dmaoff + local_offset in
    record {
      memory = copy_message msg msg_len address m;
      wr =
          rdma_wr rdma_write (record { addr = address; length = msg_len; lkey = c.write_mr.lkey })
            signal (leb msg_len max_inline_size) (c.remote.addr + remote_offset) c.remote.rkey;
    }

unfoldable pub post_write0 : Context → Option Bytes → ℕ → ℕ → ℕ → Bool → Mem → Posted
unfolding copy_message
post_write0 c msg msg_len local_offset remote_offset signal m =
    let address = c.write_buf + c.dmaoff + local_offset in
    record {
      memory = copy_message msg msg_len address m;
      wr =
          rdma_wr rdma_write (record { addr = address; length = msg_len; lkey = c.write_mr.lkey })
            signal (leb msg_len max_inline_size) (c.remote.addr0 + remote_offset) c.remote.rkey0;
    }

unfoldable pub post_write1 : Context → Option Bytes → ℕ → ℕ → ℕ → Bool → Mem → Posted
unfolding copy_message
post_write1 c msg msg_len local_offset remote_offset signal m =
    let address = c.send_buf + local_offset in
    record {
      memory = copy_message msg msg_len address m;
      wr =
          rdma_wr rdma_write (record { addr = address; length = msg_len; lkey = c.write_mr.lkey })
            signal (leb msg_len max_inline_size) (c.remote.addr + remote_offset) c.remote.rkey;
    }

unfoldable pub post_cas : Context → ℕ → ℕ → ℕ → ℕ → Bool → SendWr
post_cas c old_val new_val local_offset remote_offset signal = record {
  sg = record { addr = c.write_buf + c.dmaoff + local_offset; length = 8; lkey = c.write_mr.lkey };
  opcode = cmp_and_swp;
  signaled = signal;
  inlined = false;
  remote_addr = c.remote.addr + remote_offset;
  rkey = c.remote.rkey;
  compare_add = new_val;
  swap = old_val;
}
