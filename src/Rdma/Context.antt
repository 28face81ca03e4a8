-- ===== src/Rdma/Context.antt =====
-- rdmautil/rdmautil.h: the states of an `RDMAContext`, its registered memory, and the certificate
-- that the two ends exchange.
use pmraccess.Base.{ℕ, ◌+◌, ◌≡◌, Bool, true, false, Option, none, some, ◌==◌, if◌then◌else◌, Bytes}
use pmraccess.Wire.{u32}

-- An `int`, as the library's ℤ has it: `negsuc 0` is -1.
pub data ℤ : Type 0 where
  pos negsuc : ℕ → ℤ

-- `enum class Status`
pub data Status : Type 0 where
  ok no_rdma_device_list device_not_found device_not_opened no_gid cannot_open_device
        cannot_alloc_pd cannot_create_cq cannot_reg_mr cannot_create_qp cannot_query_port
        invalid_gid_idx invalid_ib_port invalid_arguments cannot_init_qp qp_rtr_failed qp_rts_failed
        read_error write_error post_failed recv_failed :
      Status

-- `struct connection_certificate`, with the buffer of the certificate's owner that `addr0` and
-- `addr` open: `send_buf` and `write_buf`.
pub record Certificate : Type 0 where
  pub addr0 : ℕ
  pub rkey0 : ℕ
  pub length0 : ℕ
  pub addr : ℕ
  pub rkey : ℕ
  pub length : ℕ
  pub qp_num : ℕ
  pub lid : ℕ
  pub gid : Bytes

-- `sizeof(connection_certificate)`, which is packed.
abbrev pub certificate_size : ℕ
certificate_size = 8 + 4 + 4 + 8 + 4 + 4 + 4 + 2 + 16

-- `struct ibv_mr`, as far as the source reads it.
pub record Mr : Type 0 where
  pub mr_addr : ℕ
  pub mr_length : ℕ
  pub lkey : ℕ
  pub mr_rkey : ℕ

-- The null pointer in place of a region: no field of it is read.
abbrev pub null_mr : Mr
null_mr = record { mr_addr = 0; mr_length = 0; lkey = 0; mr_rkey = 0 }

-- `RDMAContext`: the buffers are addresses.
pub record Context : Type 0 where
  pub send_mr : Mr
  pub send_buf : ℕ
  pub local : Certificate
  pub remote : Certificate
  pub write_mr : Mr
  pub write_buf : ℕ
  pub dmabuf : Bool
  pub dmaoff : ℕ

-- `register_write_buf(void *, int)`: `none` is the null pointer of `ibv_reg_mr`,
-- which `write_mr` then is.
unfoldable pub register_write_buf : Option Mr → ℕ → Context → ℤ × Context
register_write_buf none mem c = (negsuc 0, record c { write_mr = null_mr })
register_write_buf (some mr) mem c = (
  pos 0,
  record c {
    write_mr = mr;
    local = record (c.local) { addr = mr.mr_addr; rkey = mr.mr_rkey; length = u32 mr.mr_length };
    write_buf = mem;
    dmabuf = false;
    dmaoff = 0;
  },
)

-- `register_write_buf(int, uint64_t, int)`: `mapped` is what `mmap` returns.
unfoldable pub register_dma_buf : Option Mr → ℕ → ℕ → Context → ℤ × Context
register_dma_buf none mapped offset c = (negsuc 0, record c { write_mr = null_mr })
register_dma_buf (some mr) mapped offset c = (
  pos 0,
  record c {
    write_mr = mr;
    local = record (c.local) {
      addr = mr.mr_addr + offset;
      rkey = mr.mr_rkey;
      length = u32 mr.mr_length;
    };
    write_buf = mapped;
    dmabuf = true;
    dmaoff = offset;
  },
)

-- The byte order functions of the C library; `htonll` and `ntohll` are its `bswap_64`.
pub record ByteOrder : Type 0 where
  pub htonll : ℕ → ℕ
  pub ntohll : ℕ → ℕ
  pub htonl : ℕ → ℕ
  pub ntohl : ℕ → ℕ
  pub htons : ℕ → ℕ
  pub ntohs : ℕ → ℕ
  pub ntohll_lem : (n : ℕ) → ntohll (htonll n) ≡ n
  pub ntohl_lem : (n : ℕ) → ntohl (htonl n) ≡ n
  pub ntohs_lem : (n : ℕ) → ntohs (htons n) ≡ n

module _ (order : ByteOrder) where
  -- What `exchange_certificate` writes to the socket.
  unfoldable pub sent_certificate : Context → Certificate
  sent_certificate c = record {
    addr0 = order.htonll c.local.addr0;
    rkey0 = order.htonl c.local.rkey0;
    length0 = order.htonl c.local.length0;
    addr = order.htonll c.local.addr;
    rkey = order.htonl c.local.rkey;
    length = order.htonl c.local.length;
    qp_num = order.htonl c.local.qp_num;
    lid = order.htons c.local.lid;
    gid = c.local.gid;
  }

  -- `exchange_certificate`: the first two arguments are what `write` and `read` return, `tmp` is
  -- what `read` leaves.
  unfoldable pub exchange_certificate : ℕ → ℕ → Certificate → Context → Status × Context
  exchange_certificate wrote got tmp c =
      if wrote == certificate_size
      then (if got == certificate_size
          then (
            ok,
            record c {
              remote = record {
                addr0 = order.ntohll tmp.addr0;
                rkey0 = order.ntohl tmp.rkey0;
                length0 = order.ntohl tmp.length0;
                addr = order.ntohll tmp.addr;
                rkey = order.ntohl tmp.rkey;
                length = order.ntohl tmp.length;
                qp_num = order.ntohl tmp.qp_num;
                lid = order.ntohs tmp.lid;
                gid = tmp.gid;
              };
            },
          )
          else (read_error, c))
      else (write_error, c)
