-- ===== src/Rdma/Accept.antt =====
-- The accept loops `GroupServer::Listen` of frontend/group/group.cc and `PMRServer::Listen` of
-- frontend/pmr/pmr.cc, which differ in the memory that they register for a clerk.
use pmraccess.Base.{
  ℕ, zero, suc, ◌+◌, ◌≡◌, ◌≢◌, refl, Bool, true, false, Option, none, some, List, [], ◌∷◌, ◌++◌,
  arith, ◌⊎◌, inl, inr, if◌then◌else◌,
}
use pmraccess.Outcome.{Outcome, done, aborted, ◌>>=◌, ◌>>◌, check}
use pmraccess.Sockets.{Socket, server, new_channel}
use pmraccess.Rdma.Context.{
  ℤ, pos, negsuc, Status, ok, Certificate, certificate_size, Mr, Context, ByteOrder,
  register_write_buf, exchange_certificate, sent_certificate,
}
use pmraccess.Rdma.Connect.{QpAttr, OpenCalls, open_context, default_connect}
use pmraccess.Rdma.Peers.{default_connect_lem, exchange_certificate_lem}

-- A clerk's thread: its context and its number.
pub record Served : Type 0 where
  pub context : Context
  pub clerk_id : ℕ

-- What the loop keeps: the sockets, `commu_fd`, `clerk_num_` and the clerks, the newest
-- last. No constructor sets `clerk_num_`, so it starts from any number.
pub record Listening : Type 0 where
  pub socket : Socket
  pub commu_fd : ℕ
  pub clerk_num : ℕ
  pub clerks : List Served

-- What the calls of a round answer. `mem` is where the registered memory lies.
pub record Round : Type 0 where
  pub opening : OpenCalls
  pub mem : ℕ
  pub reg_mr : Option Mr
  pub wrote : ℕ
  pub got : ℕ
  pub received : Certificate
  pub ibv_modify_qp : QpAttr → ℕ
  pub listens : Bool
  pub accepted : Option ℕ

-- `== -1`
abbrev pub is_minus_one : ℤ → Bool
is_minus_one (negsuc zero) = true
is_minus_one _ = false

-- The context of `open`, whose status is only printed; the null pointer is used all the same.
abbrev pub opened : Status × Option Context → Outcome Context
opened (st, none) = aborted
opened (st, some c) = done c

module _ (order : ByteOrder) (ib_port : ℕ) (gid_idx : ℤ) where
  -- A round of the loop. What `register_write_buf` returns is not looked at.
  unfoldable pub listen_round : Round → Listening → Outcome Listening
  listen_round r s = do
    context ← opened (open_context gid_idx r.opening)
    let registered = (register_write_buf r.reg_mr r.mem context).1
    let exchanged = exchange_certificate order r.wrote r.got r.received registered
    check (
        if is_minus_one (default_connect r.ibv_modify_qp ib_port gid_idx exchanged)
        then false
        else true)
    next ← new_channel r.listens r.accepted s.socket
    done (record {
      socket = next.1;
      commu_fd = next.0;
      clerk_num = s.clerk_num + 1;
      clerks = s.clerks ++ record { context = exchanged.1; clerk_id = s.clerk_num } ∷ [];
    })

  -- The loop, for as many clients as come.
  unfoldable pub listen : List Round → Listening → Outcome Listening
  unfolding listen_round
  listen [] s = done s
  listen (r ∷ rs) s = listen_round r s >>= listen rs

  not_minus_one : (z : ℤ) → z ≢ negsuc 0 → is_minus_one z ≡ false
  not_minus_one (pos n) ne = refl
  not_minus_one (negsuc zero) ne = absurd (ne refl)
  not_minus_one (negsuc (suc n)) ne = refl

  -- The clerk that a round makes of the client `peer`.
  abbrev pub served_by : Round → Context → Context → ℕ → Served
  served_by r c0 peer id = record {
    context = record ((register_write_buf r.reg_mr r.mem c0).1) { remote = peer.local };
    clerk_id = id;
  }

  -- A round in which `open` makes a context, the certificate of the client comes whole, and a next
  -- client is accepted, returns with a further clerk, which has the number `clerk_num_`
  -- and the client's certificate; the number is one more then. That is so whatever `ibv_reg_mr` and `ibv_modify_qp` answer: a
  -- clerk is also made on memory that is not registered, and on a queue pair that is not connected.
  pub listen_round_lem :
      (r : Round) (s : Listening) (st : Status) (c0 peer : Context) (fd : ℕ)
      → open_context gid_idx r.opening ≡ (st, some c0)
      → r.wrote ≡ certificate_size
      → r.got ≡ certificate_size
      → r.received ≡ sent_certificate order peer
      → s.socket.socktype ≡ server
      → r.listens ≡ true
      → r.accepted ≡ some fd
      → (y : Listening) × (listen_round r s ≡ done y)
        × (y.clerks ≡ s.clerks ++ served_by r c0 peer s.clerk_num ∷ [])
        × (y.clerk_num ≡ s.clerk_num + 1)
        × (y.commu_fd ≡ fd)
        × (y.socket.commu_sock ≡ s.socket.commu_sock ++ fd ∷ [])
        × (y.socket.socktype ≡ server)
  unfolding listen_round new_channel
  listen_round_lem r s st c0 peer fd opening wrote got received serving listens accepted =
      let c1 : Context = (register_write_buf r.reg_mr r.mem c0).1 in
      let exchanged : exchange_certificate order r.wrote r.got r.received c1
          ≡ (ok, record c1 { remote = peer.local }) =
        rw (wrote, got, received) (exchange_certificate_lem order c1 peer) in
      let (never, connects) =
        default_connect_lem r.ibv_modify_qp ib_port gid_idx (record c1 { remote = peer.local }) in
      (
        record {
          socket = record (s.socket) { commu_sock = s.socket.commu_sock ++ fd ∷ [] };
          commu_fd = fd;
          clerk_num = s.clerk_num + 1;
          clerks = s.clerks ++ served_by r c0 peer s.clerk_num ∷ [];
        },
        rw (opening, exchanged, not_minus_one _ never, serving, listens, accepted) refl,
        refl,
        refl,
        refl,
        refl,
        serving,
      )

  opened_null : (p : Status × Option Context) → p.1 ≡ none → opened p ≡ aborted
  opened_null (st, none) e = refl
  opened_null (st, some c) e = cc

  -- A round whose `open` fails, or whose certificate is not sent or does not come whole, ends the
  -- server, also for the clients that it has.
  pub listen_round-aborted :
      (r : Round) (s : Listening)
      → ((open_context gid_idx r.opening).1 ≡ none)
        ⊎ (¬ (r.wrote ≡ certificate_size))
        ⊎ (¬ (r.got ≡ certificate_size))
      → listen_round r s ≡ aborted
  unfolding listen_round exchange_certificate default_connect
  listen_round-aborted r s (inl null) = rw (opened_null (open_context gid_idx r.opening) null) refl
  listen_round-aborted r s (inr cut) =
      opened_aborted (open_context gid_idx r.opening) _ (λ c. rw (not_whole r c cut) refl)
    where
      opened_aborted :
          (p : Status × Option Context) (f : Context → Outcome Listening)
          → ((c : Context) → f c ≡ aborted)
          → (opened p >>= f) ≡ aborted
      opened_aborted (st, none) f k = refl
      opened_aborted (st, some c) f k = k c

      not_whole :
          (r' : Round) (c : Context)
          → (¬ (r'.wrote ≡ certificate_size)) ⊎ (¬ (r'.got ≡ certificate_size))
          → default_connect r'.ibv_modify_qp ib_port gid_idx (
              exchange_certificate order r'.wrote r'.got r'.received
                (register_write_buf r'.reg_mr r'.mem c).1)
            ≡ negsuc 0
      not_whole r' c e = ground arith
