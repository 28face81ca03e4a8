-- ===== src/Tests/Serves.antt =====
-- A server that accepts a client whose queue pair refuses every attribute, its sockets, the end of a
-- context, and a server without a store.
use pmraccess.Base.{◌≡◌, refl, true, false, not, none, some, [], ◌∷◌, ◌++◌, bytes_eq}
use pmraccess.Outcome.{done, aborted, ◌>>=◌}
use pmraccess.Sockets.{
  Socket, Calls, server, make_socket, new_channels, get_first, closed_by_destructor,
  server_socket_lem,
}
use pmraccess.Rdma.Context.{pos, Mr, Context, certificate_size, sent_certificate}
use pmraccess.Rdma.Context
use pmraccess.Rdma.Connect.{open_context, no_certificate}
use pmraccess.Rdma.Accept.{Listening, Round, listen_round, served_by, listen_round_lem}
use pmraccess.Rdma.Release.{
  domain, Verbs, VerbsLaws, is_used, release_all, destructor, served, destructor_lem,
}
use pmraccess.Instance.{group_front, groupaccess_name, serve, serve_lem, new_client, open_db}
use pmraccess.Tests.Data.{big_endian}

abbrev calls : Calls
calls = record {
  socket = some 3;
  setsockopt = true;
  bind = true;
  listen = true;
  accept = some 4;
  inet_pton = true;
  connect = true;
}

server_socket_lem_example :
    (s : Socket) × ((make_socket server [] calls >>= new_channels (some 5 ∷ some 6 ∷ [])) ≡ done s)
    × (get_first s ≡ done 4)
    × (s.listen_sock ≡ some 3)
    × (closed_by_destructor s ≡ 4 ∷ 5 ∷ 6 ∷ [])
server_socket_lem_example = server_socket_lem [] calls 3 4 (5 ∷ 6 ∷ []) refl refl refl refl refl

abbrev send_region : Mr
send_region = record { mr_addr = 0x8000; mr_length = 1048576; lkey = 21; mr_rkey = 22 }

abbrev opened : Context
opened = record {
  send_mr = send_region;
  send_buf = 0x8000;
  local = record no_certificate {
    addr0 = 0x8000;
    rkey0 = 22;
    length0 = 1048576;
    qp_num = 7;
    lid = 3;
  };
  remote = no_certificate;
  write_mr = record { mr_addr = 0; mr_length = 0; lkey = 0; mr_rkey = 0 };
  write_buf = 0;
  dmabuf = false;
  dmaoff = 0;
}

abbrev round : Round
round = record {
  opening = record {
    alloc_pd = true;
    create_in_cq = true;
    create_out_cq = true;
    new_send_buf = 0x8000;
    reg_mr = some send_region;
    create_qp = some 7;
    query_gid = some no_certificate.gid;
    query_port = some 3;
  };
  mem = 0x100;
  reg_mr = none;
  wrote = certificate_size;
  got = certificate_size;
  received = sent_certificate big_endian opened;
  ibv_modify_qp = λ attr. 22;
  listens = true;
  accepted = some 6;
}

abbrev listening : Listening
listening = record {
  socket = record { socktype = server; listen_sock = some 3; commu_sock = 5 ∷ [] };
  commu_fd = 5;
  clerk_num = 0;
  clerks = [];
}

listen_round_lem_example :
    (y : Listening) × (listen_round big_endian 1 (pos 0) round listening ≡ done y)
    × (y.clerks ≡ [] ++ served_by big_endian 1 (pos 0) round opened opened 0 ∷ [])
    × (y.clerk_num ≡ 1)
    × (y.commu_fd ≡ 6)
    × (y.socket.commu_sock ≡ (5 ∷ []) ++ 6 ∷ [])
    × (y.socket.socktype ≡ server)
unfolding open_context
listen_round_lem_example =
    listen_round_lem big_endian 1 (pos 0) round listening Context.ok opened opened 6 refl refl refl
      refl refl refl refl

-- Calls that succeed exactly where a resource is not in use.
abbrev verbs : Verbs
verbs = record { releases = λ r held. not (is_used r held) }

verbs-VerbsLaws : VerbsLaws verbs
verbs-VerbsLaws = record { busy = λ r held e. rw e refl; free = λ r held e. rw e refl }

destructor_lem_example :
    release_all verbs (destructor (served true)) (destructor (served true)) ≡ domain ∷ []
destructor_lem_example = destructor_lem verbs true verbs-VerbsLaws

serve_lem_example : serve groupaccess_name (b'x' ∷ []) ≡ elim (new_client groupaccess_name) [
  | none ↦ aborted
  | some f ↦ done (record { front = f; db = open_db (b'x' ∷ []) })
]
serve_lem_example = serve_lem groupaccess_name (b'x' ∷ [])

-- A server whose store is a null pointer.
no_store : serve groupaccess_name (b'x' ∷ []) ≡ done (record { front = group_front; db = none })
unfolding serve bytes_eq
no_store = refl
