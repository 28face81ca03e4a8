-- ===== src/Rdma/Peers.antt =====
-- What rdmautil/rdmautil.cc promises the two ends of a queue pair: that they know each other's
-- buffers, and that the posts go where they say.
use pmraccess.Base.{
  ℕ, ◌+◌, ◌≡◌, ◌≢◌, ◌↔◌, refl, Bool, true, false, Option, none, some, ◌==◌, if◌then◌else◌, arith,
  Bytes, Mem,
}
use pmraccess.Wire.{send_buf_size}
use pmraccess.Rdma.Context.{
  ℤ, pos, negsuc, Status, ok, no_rdma_device_list, device_not_found, device_not_opened, no_gid,
  cannot_open_device, cannot_alloc_pd, cannot_create_cq, cannot_reg_mr, cannot_create_qp,
  cannot_query_port, invalid_gid_idx, invalid_ib_port, invalid_arguments, cannot_init_qp,
  qp_rtr_failed, qp_rts_failed, read_error, write_error, post_failed, recv_failed, Certificate,
  certificate_size, Mr, Context, register_write_buf, ByteOrder, sent_certificate,
  exchange_certificate,
}
use pmraccess.Rdma.Connect.{
  QpAttr, OpenCalls, open_context, local_gid, require, or_fail, default_connect, stage, modify_qp,
  init_state_attr, rtr_attr, rts_attr,
}
use pmraccess.Rdma.Post.{SendWr, post_read, post_write, post_write0, post_write1, post_cas}

module _ (order : ByteOrder) where
  -- A context that has read the whole of what a peer wrote has the status `Ok` and knows the peer's
  -- certificate as it is, whatever the byte order of the host.
  pub exchange_certificate_lem :
      (a b : Context)
      → exchange_certificate order certificate_size certificate_size (sent_certificate order b) a
        ≡ (ok, record a { remote = b.local })
  unfolding exchange_certificate sent_certificate
  exchange_certificate_lem a b =
      let o : ByteOrder = order in
      let p = b.local in
      rw (
        o.ntohll_lem p.addr0,
        o.ntohl_lem p.rkey0,
        o.ntohl_lem p.length0,
        o.ntohll_lem p.addr,
        o.ntohl_lem p.rkey,
        o.ntohl_lem p.length,
        o.ntohl_lem p.qp_num,
        o.ntohs_lem p.lid,
      )

  -- After a peer whose certificate opens its send buffer has registered a write buffer and the
  -- certificates are exchanged, every post names the buffer of the peer that it is for:
  -- `post_write0` the send buffer, `post_write`, `post_write1` and `post_read` the registered one,
  -- each at the offset given and under its own key.
  pub posts_reach :
      (a b : Context) (mr : Mr) (mem : ℕ)
      → b.local.addr0 ≡ b.send_buf
      → b.local.rkey0 ≡ b.send_mr.mr_rkey
      → (msg : Option Bytes) (n l r : ℕ) (signal : Bool) (m : Mem)
      → let b' = (register_write_buf (some mr) mem b).1 in
        let a' =
          (exchange_certificate order certificate_size certificate_size
            (sent_certificate order b')
            a).1 in
        let w0 = (post_write0 a' msg n l r signal m).wr in
        let w = (post_write a' msg n l r signal m).wr in
        let w1 = (post_write1 a' msg n l r signal m).wr in
        let rd = post_read a' n l r signal in
        (w0.remote_addr ≡ b.send_buf + r)
        × (w0.rkey ≡ b.send_mr.mr_rkey)
        × (w.remote_addr ≡ mr.mr_addr + r)
        × (w.rkey ≡ mr.mr_rkey)
        × (w1.remote_addr ≡ mr.mr_addr + r)
        × (w1.rkey ≡ mr.mr_rkey)
        × (rd.remote_addr ≡ mr.mr_addr + r)
        × (rd.rkey ≡ mr.mr_rkey)
  unfolding post_write0 post_write post_write1 post_read register_write_buf
  posts_reach a b mr mem e f msg n l r signal m =
      let b' : Context = (register_write_buf (some mr) mem b).1 in
      rw (exchange_certificate_lem a b', e, f) (refl, refl, refl, refl, refl, refl, refl, refl)

-- Where a write to the socket or a read from it is short, the status says which and the context
-- stays as it was.
pub exchange_certificate_short :
    (order : ByteOrder) (wrote got : ℕ) (tmp : Certificate) (c : Context)
    → (wrote ≢ certificate_size → exchange_certificate order wrote got tmp c ≡ (write_error, c))
      × (wrote ≡ certificate_size
          → got ≢ certificate_size
          → exchange_certificate order wrote got tmp c ≡ (read_error, c))
unfolding exchange_certificate
exchange_certificate_short order wrote got tmp c = (λ h. ground arith, λ e h. ground arith)

-- An exchange that failed makes `default_connect` return -1.
pub default_connect-failed :
    (modify : QpAttr → ℕ) (p : ℕ) (g : ℤ) (s : Status) (x : Context)
    → s ≢ ok
    → default_connect modify p g (s, x) ≡ negsuc 0
unfolding default_connect
default_connect-failed modify p g ok x h = absurd (h refl)
default_connect-failed modify p g no_rdma_device_list x h = refl
default_connect-failed modify p g device_not_found x h = refl
default_connect-failed modify p g device_not_opened x h = refl
default_connect-failed modify p g no_gid x h = refl
default_connect-failed modify p g cannot_open_device x h = refl
default_connect-failed modify p g cannot_alloc_pd x h = refl
default_connect-failed modify p g cannot_create_cq x h = refl
default_connect-failed modify p g cannot_reg_mr x h = refl
default_connect-failed modify p g cannot_create_qp x h = refl
default_connect-failed modify p g cannot_query_port x h = refl
default_connect-failed modify p g invalid_gid_idx x h = refl
default_connect-failed modify p g invalid_ib_port x h = refl
default_connect-failed modify p g invalid_arguments x h = refl
default_connect-failed modify p g cannot_init_qp x h = refl
default_connect-failed modify p g qp_rtr_failed x h = refl
default_connect-failed modify p g qp_rts_failed x h = refl
default_connect-failed modify p g read_error x h = refl
default_connect-failed modify p g write_error x h = refl
default_connect-failed modify p g post_failed x h = refl
default_connect-failed modify p g recv_failed x h = refl

stage_lem :
    (modify : QpAttr → ℕ) (attr : QpAttr) (rest : ℤ)
    → stage (modify_qp modify attr) rest ≡ (if modify attr == 0 then rest else pos (modify attr))
unfolding stage modify_qp
stage_lem modify attr rest = ground arith

pos_inj : (m n : ℕ) → pos m ≡ pos n → m ≡ n
pos_inj m n e = cc

-- Three stages in a row, on the answers to their attributes.
stages_lem :
    (a b c : ℕ)
    → let r =
        if a == 0 then (if b == 0 then (if c == 0 then pos 0 else pos c) else pos b) else pos a in
      (r ≢ negsuc 0) × (r ≡ pos 0 ↔ (a ≡ 0) × (b ≡ 0) × (c ≡ 0))
stages_lem a b c = ground arith

-- Once the certificates are exchanged, `default_connect` returns 0 exactly if the queue pair takes
-- all three attributes, and never the -1 that `Connect` and `Listen` of every front end test for: a
-- refused attribute goes unnoticed.
pub default_connect_lem :
    (modify : QpAttr → ℕ) (ib_port : ℕ) (gid_idx : ℤ) (c : Context)
    → let r = default_connect modify ib_port gid_idx (ok, c) in
      (r ≢ negsuc 0)
      × (r ≡ pos 0
          ↔ (modify (init_state_attr 1) ≡ 0)
            × (modify (rtr_attr c.remote ib_port gid_idx) ≡ 0)
            × (modify rts_attr ≡ 0))
unfolding default_connect
default_connect_lem modify ib_port gid_idx c =
    rw
      (
        stage_lem modify (init_state_attr 1),
        stage_lem modify (rtr_attr c.remote ib_port gid_idx),
        stage_lem modify rts_attr,
      )
      (stages_lem (modify (init_state_attr 1)) (modify (rtr_attr c.remote ib_port gid_idx))
        (modify rts_attr))

-- A compare-and-swap has its two values exchanged: with the card's documented behaviour, and for
-- two values that differ, a word that holds `old_val` stays as it is, and one that holds `new_val`
-- becomes `old_val`.
pub post_cas_swapped :
    (cas : SendWr → ℕ → ℕ)
    → ((w : SendWr) → cas w w.compare_add ≡ w.swap)
    → ((w : SendWr) (x : ℕ) → x ≢ w.compare_add → cas w x ≡ x)
    → (c : Context) (old_val new_val l r : ℕ) (signal : Bool) → old_val ≢ new_val
    → let w = post_cas c old_val new_val l r signal in
      (cas w old_val ≡ old_val) × (cas w new_val ≡ old_val)
unfolding post_cas
post_cas_swapped cas hit miss c old_val new_val l r signal ne =
    let w : SendWr = post_cas c old_val new_val l r signal in (miss w old_val ne, hit w)

-- What `open` may return: an error and no context, or `Ok` and one whose certificate opens the send
-- buffer that it has for itself, whole and under its own key.
abbrev pub IsOpened : Status × Option Context → Type 0
IsOpened (s, none) = s ≢ ok
IsOpened (s, some c) =
    (s ≡ ok)
    × (c.local.addr0 ≡ c.send_buf)
    × (c.local.rkey0 ≡ c.send_mr.mr_rkey)
    × (c.local.length0 ≡ send_buf_size)

require-IsOpened :
    (b : Bool) (s : Status) (k : Status × Option Context)
    → s ≢ ok
    → IsOpened k
    → IsOpened (require b s k)
require-IsOpened true s k ne h = h
require-IsOpened false s k ne h = ne

or_fail-IsOpened :
    {A : Type 0} (o : Option A) (s : Status) (k : A → Status × Option Context)
    → s ≢ ok
    → ((a : A) → IsOpened (k a))
    → IsOpened (or_fail o s k)
or_fail-IsOpened none s k ne h = ne
or_fail-IsOpened (some a) s k ne h = h a

-- Whatever the verbs library answers, `open` returns `Ok` with a context or an error without, and
-- the certificate of a context opens the send buffer that it has for itself, whole and under its
-- own key.
pub open_context_lem : (gid_idx : ℤ) (calls : OpenCalls) → IsOpened (open_context gid_idx calls)
unfolding open_context
open_context_lem gid_idx calls =
    require-IsOpened calls.alloc_pd cannot_alloc_pd _ (λ e. cc)
      (require-IsOpened calls.create_in_cq cannot_create_cq _ (λ e. cc)
        (require-IsOpened calls.create_out_cq cannot_create_cq _ (λ e. cc)
          (or_fail-IsOpened calls.reg_mr cannot_reg_mr _ (λ e. cc)
            λ mr.
              or_fail-IsOpened calls.create_qp cannot_create_qp _ (λ e. cc)
                λ qp_num.
                  or_fail-IsOpened (local_gid gid_idx calls.query_gid) no_gid _ (λ e. cc)
                    λ gid.
                      or_fail-IsOpened calls.query_port cannot_query_port _ (λ e. cc)
                        λ lid. (refl, refl, refl, refl))))
