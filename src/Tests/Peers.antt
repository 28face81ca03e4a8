-- ===== src/Tests/Peers.antt =====
-- The properties of rdmautil/ at concrete inputs.
use pmraccess.Base.{ℕ, ◌+◌, ◌≡◌, refl, true, false, none, some}
use pmraccess.Rdma.Context.{
  Mr, Context, certificate_size, register_write_buf, sent_certificate, exchange_certificate,
}
use pmraccess.Rdma.Post.{post_read, post_write, post_write0, post_write1}
use pmraccess.Rdma.Connect.{no_certificate}
use pmraccess.Rdma.Peers.{posts_reach}
use pmraccess.Tests.Data.{zeros, big_endian}

-- The queue pairs.
abbrev some_mr : Mr
some_mr = record { mr_addr = 0x1000; mr_length = 4104; lkey = 11; mr_rkey = 12 }

abbrev context : ℕ → Context
context at = record {
  send_mr = record { mr_addr = at; mr_length = 1048576; lkey = 21; mr_rkey = 22 };
  send_buf = at;
  local = record no_certificate { addr0 = at; rkey0 = 22; length0 = 1048576; qp_num = 7 };
  remote = no_certificate;
  write_mr = some_mr;
  write_buf = 0;
  dmabuf = false;
  dmaoff = 0;
}

posts_reach_example :
    let b' = (register_write_buf (some some_mr) 0x1000 (context 0x8000)).1 in
    let a' =
      (exchange_certificate big_endian certificate_size certificate_size
        (sent_certificate big_endian b')
        (context 0x2000)).1 in
    let w0 = (post_write0 a' none 64 8 8 true zeros).wr in
    let w = (post_write a' none 64 8 8 true zeros).wr in
    let w1 = (post_write1 a' none 64 8 8 true zeros).wr in
    let rd = post_read a' 64 8 8 true in
    (w0.remote_addr ≡ 0x8000 + 8)
    × (w0.rkey ≡ 22)
    × (w.remote_addr ≡ 0x1000 + 8)
    × (w.rkey ≡ 12)
    × (w1.remote_addr ≡ 0x1000 + 8)
    × (w1.rkey ≡ 12)
    × (rd.remote_addr ≡ 0x1000 + 8)
    × (rd.rkey ≡ 12)
posts_reach_example =
    posts_reach big_endian (context 0x2000) (context 0x8000) some_mr 0x1000 refl refl none 64 8 8
      true zeros
