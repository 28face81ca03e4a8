-- ===== src/Rdma/Statuses.antt =====
-- `decode_rdma_status` of rdmautil/rdmautil.h, the text that the front ends print for a status.
use pmraccess.Base.{◌≡◌, refl, Option, none, some, List, [], ◌∷◌, if◌then◌else◌, bytes_eq, Bytes}
use pmraccess.Rdma.Context.{
  Status, ok, no_rdma_device_list, device_not_found, device_not_opened, no_gid, cannot_open_device,
  cannot_alloc_pd, cannot_create_cq, cannot_reg_mr, cannot_create_qp, cannot_query_port,
  invalid_gid_idx, invalid_ib_port, invalid_arguments, cannot_init_qp, qp_rtr_failed, qp_rts_failed,
  read_error, write_error, post_failed, recv_failed,
}

abbrev unknown_status : Bytes
unknown_status =
    b'U' ∷ b'n' ∷ b'k' ∷ b'n' ∷ b'o' ∷ b'w' ∷ b'n' ∷ b' ' ∷ b's' ∷ b't' ∷ b'a' ∷ b't' ∷ b'u' ∷ b's'
    ∷ []

-- `decode_rdma_status`
unfoldable pub decode_status : Status → Bytes
decode_status ok = b'O' ∷ b'k' ∷ []
decode_status no_rdma_device_list =
    b'N' ∷ b'o' ∷ b'R' ∷ b'D' ∷ b'M' ∷ b'A' ∷ b'D' ∷ b'e' ∷ b'v' ∷ b'i' ∷ b'c' ∷ b'e' ∷ b'L' ∷ b'i'
    ∷ b's' ∷ b't' ∷ []
decode_status device_not_found =
    b'D' ∷ b'e' ∷ b'v' ∷ b'i' ∷ b'c' ∷ b'e' ∷ b'N' ∷ b'o' ∷ b't' ∷ b'F' ∷ b'o' ∷ b'u' ∷ b'n' ∷ b'd'
    ∷ []
decode_status device_not_opened =
    b'D' ∷ b'e' ∷ b'v' ∷ b'i' ∷ b'c' ∷ b'e' ∷ b'N' ∷ b'o' ∷ b't' ∷ b'O' ∷ b'p' ∷ b'e' ∷ b'n' ∷ b'e'
    ∷ b'd' ∷ []
decode_status no_gid = b'N' ∷ b'o' ∷ b'G' ∷ b'I' ∷ b'D' ∷ []
decode_status cannot_open_device =
    b'C' ∷ b'a' ∷ b'n' ∷ b'n' ∷ b'o' ∷ b't' ∷ b'O' ∷ b'p' ∷ b'e' ∷ b'n' ∷ b'D' ∷ b'e' ∷ b'v' ∷ b'i'
    ∷ b'c' ∷ b'e' ∷ []
decode_status cannot_alloc_pd =
    b'C' ∷ b'a' ∷ b'n' ∷ b'n' ∷ b'o' ∷ b't' ∷ b'A' ∷ b'l' ∷ b'l' ∷ b'o' ∷ b'c' ∷ b'P' ∷ b'D' ∷ []
decode_status cannot_create_cq =
    b'C' ∷ b'a' ∷ b'n' ∷ b'n' ∷ b'o' ∷ b't' ∷ b'C' ∷ b'r' ∷ b'e' ∷ b'a' ∷ b't' ∷ b'e' ∷ b'C' ∷ b'Q'
    ∷ []
decode_status cannot_reg_mr =
    b'C' ∷ b'a' ∷ b'n' ∷ b'n' ∷ b'o' ∷ b't' ∷ b'R' ∷ b'e' ∷ b'g' ∷ b'M' ∷ b'R' ∷ []
decode_status cannot_create_qp =
    b'C' ∷ b'a' ∷ b'n' ∷ b'n' ∷ b'o' ∷ b't' ∷ b'C' ∷ b'r' ∷ b'e' ∷ b'a' ∷ b't' ∷ b'e' ∷ b'Q' ∷ b'P'
    ∷ []
decode_status cannot_query_port =
    b'C' ∷ b'a' ∷ b'n' ∷ b'n' ∷ b'o' ∷ b't' ∷ b'Q' ∷ b'u' ∷ b'e' ∷ b'r' ∷ b'y' ∷ b'P' ∷ b'o' ∷ b'r'
    ∷ b't' ∷ []
decode_status invalid_gid_idx =
    b'I' ∷ b'n' ∷ b'v' ∷ b'a' ∷ b'l' ∷ b'i' ∷ b'd' ∷ b'G' ∷ b'I' ∷ b'D' ∷ b'I' ∷ b'd' ∷ b'x' ∷ []
decode_status invalid_ib_port =
    b'I' ∷ b'n' ∷ b'v' ∷ b'a' ∷ b'l' ∷ b'i' ∷ b'd' ∷ b'I' ∷ b'B' ∷ b'P' ∷ b'o' ∷ b'r' ∷ b't' ∷ []
decode_status invalid_arguments =
    b'I' ∷ b'n' ∷ b'v' ∷ b'a' ∷ b'l' ∷ b'i' ∷ b'd' ∷ b'A' ∷ b'r' ∷ b'g' ∷ b'u' ∷ b'm' ∷ b'e' ∷ b'n'
    ∷ b't' ∷ b's' ∷ []
decode_status cannot_init_qp =
    b'C' ∷ b'a' ∷ b'n' ∷ b'n' ∷ b'o' ∷ b't' ∷ b'I' ∷ b'n' ∷ b'i' ∷ b't' ∷ b'Q' ∷ b'P' ∷ []
decode_status qp_rtr_failed =
    b'Q' ∷ b'P' ∷ b'R' ∷ b'T' ∷ b'R' ∷ b'F' ∷ b'a' ∷ b'i' ∷ b'l' ∷ b'e' ∷ b'd' ∷ []
decode_status qp_rts_failed =
    b'Q' ∷ b'P' ∷ b'R' ∷ b'T' ∷ b'S' ∷ b'F' ∷ b'a' ∷ b'i' ∷ b'l' ∷ b'e' ∷ b'd' ∷ []
decode_status read_error = b'R' ∷ b'e' ∷ b'a' ∷ b'd' ∷ b'E' ∷ b'r' ∷ b'r' ∷ b'o' ∷ b'r' ∷ []
decode_status write_error = b'W' ∷ b'r' ∷ b'i' ∷ b't' ∷ b'e' ∷ b'E' ∷ b'r' ∷ b'r' ∷ b'o' ∷ b'r' ∷ []
decode_status post_failed = unknown_status
decode_status recv_failed = unknown_status

-- The statuses in the order of the enumeration.
abbrev pub all_statuses : List Status
all_statuses =
    ok ∷ no_rdma_device_list ∷ device_not_found ∷ device_not_opened ∷ no_gid ∷ cannot_open_device
    ∷ cannot_alloc_pd ∷ cannot_create_cq ∷ cannot_reg_mr ∷ cannot_create_qp ∷ cannot_query_port
    ∷ invalid_gid_idx ∷ invalid_ib_port ∷ invalid_arguments ∷ cannot_init_qp ∷ qp_rtr_failed
    ∷ qp_rts_failed ∷ read_error ∷ write_error ∷ post_failed ∷ recv_failed ∷ []

-- The first status of a list that has a text.
abbrev pub find_status : Bytes → List Status → Option Status
find_status text [] = none
find_status text (s ∷ ss) = if bytes_eq (decode_status s) text then some s else find_status text ss

-- A failed post or receive, which has no text of its own.
abbrev pub named : Status → Option Status
named post_failed = some post_failed
named recv_failed = some post_failed
named s = some s

-- The text of a status names it among all statuses, but for a failed post and a failed receive,
-- which have one text between them.
pub find_status-decode_status : (s : Status) → find_status (decode_status s) all_statuses ≡ named s
unfolding decode_status bytes_eq
find_status-decode_status ok = refl
find_status-decode_status no_rdma_device_list = refl
find_status-decode_status device_not_found = refl
find_status-decode_status device_not_opened = refl
find_status-decode_status no_gid = refl
find_status-decode_status cannot_open_device = refl
find_status-decode_status cannot_alloc_pd = refl
find_status-decode_status cannot_create_cq = refl
find_status-decode_status cannot_reg_mr = refl
find_status-decode_status cannot_create_qp = refl
find_status-decode_status cannot_query_port = refl
find_status-decode_status invalid_gid_idx = refl
find_status-decode_status invalid_ib_port = refl
find_status-decode_status invalid_arguments = refl
find_status-decode_status cannot_init_qp = refl
find_status-decode_status qp_rtr_failed = refl
find_status-decode_status qp_rts_failed = refl
find_status-decode_status read_error = refl
find_status-decode_status write_error = refl
find_status-decode_status post_failed = refl
find_status-decode_status recv_failed = refl
