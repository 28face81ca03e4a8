-- ===== src/Rdma/Connect.antt =====
-- `RDMADevice::open`, the attributes of a queue pair, `modify_qp` and `default_connect` of
-- rdmautil/rdmautil.cc.
use pmraccess.Base.{
  ℕ, Bool, true, false, Option, none, some, ◌==◌, if◌then◌else◌, Bytes, ◌∷◌, [], List,
}
use pmraccess.Wire.{send_buf_size}
use pmraccess.Rdma.Context.{
  ℤ, pos, negsuc, Status, ok, no_gid, cannot_alloc_pd, cannot_create_cq, cannot_reg_mr,
  cannot_create_qp, cannot_query_port, cannot_init_qp, Certificate, Mr, null_mr, Context,
}

-- The states of a queue pair that `default_connect` goes through.
pub data QpState : Type 0 where
  init rtr rts : QpState

-- `IBV_ACCESS_LOCAL_WRITE`, `IBV_ACCESS_REMOTE_READ` and `IBV_ACCESS_REMOTE_WRITE`
pub data AccessFlag : Type 0 where
  local_write remote_read remote_write : AccessFlag

-- `IBV_MTU_256`, and the 0 that `memset` leaves.
pub data PathMtu : Type 0 where
  unset mtu_256 : PathMtu

-- `ah_attr`
pub record AddressHandle : Type 0 where
  pub is_global : ℕ
  pub dlid : ℕ
  pub port_num : ℕ
  pub dgid : Bytes
  pub hop_limit : ℕ
  pub sgid_index : ℕ

-- `struct ibv_qp_attr`, where the source sets it; the rest is 0.
pub record QpAttr : Type 0 where
  pub qp_state : QpState
  pub qp_port_num : ℕ
  pub pkey_index : ℕ
  pub qp_access_flags : List AccessFlag
  pub path_mtu : PathMtu
  pub rq_psn : ℕ
  pub sq_psn : ℕ
  pub dest_qp_num : ℕ
  pub max_dest_rd_atomic : ℕ
  pub min_rnr_timer : ℕ
  pub ah_attr : AddressHandle
  pub timeout : ℕ
  pub retry_cnt : ℕ
  pub rnr_retry : ℕ
  pub max_rd_atomic : ℕ

abbrev pub no_address : AddressHandle
no_address = record {
  is_global = 0;
  dlid = 0;
  port_num = 0;
  dgid = [];
  hop_limit = 0;
  sgid_index = 0;
}

abbrev pub no_attr : QpState → QpAttr
no_attr state = record {
  qp_state = state;
  qp_port_num = 0;
  pkey_index = 0;
  qp_access_flags = [];
  path_mtu = unset;
  rq_psn = 0;
  sq_psn = 0;
  dest_qp_num = 0;
  max_dest_rd_atomic = 0;
  min_rnr_timer = 0;
  ah_attr = no_address;
  timeout = 0;
  retry_cnt = 0;
  rnr_retry = 0;
  max_rd_atomic = 0;
}

-- `get_default_qp_init_state_attr`
unfoldable pub init_state_attr : ℕ → QpAttr
init_state_attr ib_port = record (no_attr init) {
  qp_port_num = ib_port;
  pkey_index = 0;
  qp_access_flags = local_write ∷ remote_read ∷ remote_write ∷ [];
}

-- `get_default_qp_rtr_attr`; a negative `sgid_idx` is one without a global route.
unfoldable pub rtr_attr : Certificate → ℕ → ℤ → QpAttr
rtr_attr remote ib_port (pos sgid_idx) = record (no_attr rtr) {
  path_mtu = mtu_256;
  dest_qp_num = remote.qp_num;
  max_dest_rd_atomic = 1;
  min_rnr_timer = 0x12;
  ah_attr = record {
    is_global = 1;
    dlid = remote.lid;
    port_num = 1;
    dgid = remote.gid;
    hop_limit = 1;
    sgid_index = sgid_idx;
  };
}
rtr_attr remote ib_port (negsuc n) = record (no_attr rtr) {
  path_mtu = mtu_256;
  dest_qp_num = remote.qp_num;
  max_dest_rd_atomic = 1;
  min_rnr_timer = 0x12;
  ah_attr = record no_address { dlid = remote.lid; port_num = ib_port };
}

-- `get_default_qp_rts_attr`
unfoldable pub rts_attr : QpAttr
rts_attr = record (no_attr rts) { timeout = 14; retry_cnt = 7; rnr_retry = 7; max_rd_atomic = 1 }

-- `modify_qp`, on what `ibv_modify_qp` answers to an attribute: 0, or an error number.
unfoldable pub modify_qp : (QpAttr → ℕ) → QpAttr → Status × ℕ
modify_qp ibv_modify_qp attr =
    let ret = ibv_modify_qp attr in if ret == 0 then (ok, ret) else (cannot_init_qp, ret)

-- One of the three stages of `default_connect`: it goes on, or returns the error.
unfoldable pub stage : Status × ℕ → ℤ → ℤ
stage (ok, err) rest = rest
stage (s, err) rest = pos err

-- `default_connect`, on what `exchange_certificate` returned and left.
unfoldable pub default_connect : (QpAttr → ℕ) → ℕ → ℤ → Status × Context → ℤ
unfolding modify_qp init_state_attr rtr_attr rts_attr stage
default_connect modify ib_port gid_idx (ok, c) = stage (modify_qp modify (init_state_attr 1)) (
    stage (modify_qp modify (rtr_attr c.remote ib_port gid_idx))
      (stage (modify_qp modify rts_attr) (pos 0)))
default_connect modify ib_port gid_idx (s, c) = negsuc 0

-- What the calls of `open` into the verbs library answer; `none` is a null pointer or an error.
pub record OpenCalls : Type 0 where
  pub alloc_pd : Bool
  pub create_in_cq : Bool
  pub create_out_cq : Bool
  pub new_send_buf : ℕ
  pub reg_mr : Option Mr
  pub create_qp : Option ℕ
  pub query_gid : Option Bytes
  pub query_port : Option ℕ

abbrev pub or_fail {ℓ} :
    {A : Type ℓ} → Option A → Status → (A → Status × Option Context) → Status × Option Context
or_fail none s k = (s, none)
or_fail (some a) s k = k a

abbrev pub require : Bool → Status → Status × Option Context → Status × Option Context
require true s k = k
require false s k = (s, none)

-- The gid is queried where the index is not negative; `make_rdma_context` fills with 0.
abbrev pub zero_gid : Bytes
zero_gid = 0 ∷ 0 ∷ 0 ∷ 0 ∷ 0 ∷ 0 ∷ 0 ∷ 0 ∷ 0 ∷ 0 ∷ 0 ∷ 0 ∷ 0 ∷ 0 ∷ 0 ∷ 0 ∷ []

unfoldable pub local_gid : ℤ → Option Bytes → Option Bytes
local_gid (pos n) answer = answer
local_gid (negsuc n) answer = some zero_gid

abbrev pub no_certificate : Certificate
no_certificate = record {
  addr0 = 0;
  rkey0 = 0;
  length0 = 0;
  addr = 0;
  rkey = 0;
  length = 0;
  qp_num = 0;
  lid = 0;
  gid = zero_gid;
}

-- `RDMADevice::open`
unfoldable pub open_context : ℤ → OpenCalls → Status × Option Context
unfolding local_gid
open_context gid_idx calls = require calls.alloc_pd cannot_alloc_pd (
    require calls.create_in_cq cannot_create_cq (
      require calls.create_out_cq cannot_create_cq (
        or_fail calls.reg_mr cannot_reg_mr λ mr. or_fail calls.create_qp cannot_create_qp λ qp_num.
          or_fail (local_gid gid_idx calls.query_gid) no_gid λ gid.
            or_fail calls.query_port cannot_query_port λ lid. (
              ok,
              some (record {
                send_mr = mr;
                send_buf = calls.new_send_buf;
                local = record {
                  addr0 = calls.new_send_buf;
                  rkey0 = mr.mr_rkey;
                  length0 = send_buf_size;
                  addr = 0;
                  rkey = 0;
                  length = 0;
                  qp_num = qp_num;
                  lid = lid;
                  gid = gid;
                };
                remote = no_certificate;
                write_mr = null_mr;
                write_buf = 0;
                dmabuf = false;
                dmaoff = 0;
              }),
            ))))
