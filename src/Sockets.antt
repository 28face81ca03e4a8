-- ===== src/Sockets.antt =====
-- rdmautil/socketutil.h and socketutil.cc: the TCP sockets over which the certificates travel.
use mathlib.Core.List.{append-nil, append_assoc}
use pmraccess.Base.{
  ℕ, ◌≡◌, refl, sym, ◌∙◌, ap, Bool, true, false, Option, none, some, List, [], ◌∷◌, ◌++◌, map, ltb,
  leb, length, Bytes,
}
use pmraccess.Outcome.{Outcome, done, waiting, aborted, ◌>>=◌, ◌>>◌, check}

-- `enum SockType`
pub data SockType : Type 0 where
  client server : SockType

abbrev pub mtu : ℕ
mtu = 256

-- `Socket`: descriptors; `none` is the -1 of the constructor.
pub record Socket : Type 0 where
  pub socktype : SockType
  pub listen_sock : Option ℕ
  pub commu_sock : List ℕ

-- `Socket(SockType)`
abbrev pub new_socket : SockType → Socket
new_socket s = record { socktype = s; listen_sock = none; commu_sock = [] }

-- What the system calls of `make_socket` answer; `none` and `false` are failures.
pub record Calls : Type 0 where
  pub socket : Option ℕ
  pub setsockopt : Bool
  pub bind : Bool
  pub listen : Bool
  pub accept : Option ℕ
  pub inet_pton : Bool
  pub connect : Bool

-- `perror(...)` and `exit(EXIT_FAILURE)` on a failure.
abbrev pub or_exit {ℓ} : {A : Type ℓ} → Option A → Outcome A
or_exit none = aborted
or_exit (some a) = done a

-- `make_socket`; of the address the code tests whether it is empty.
unfoldable pub make_socket : SockType → Bytes → Calls → Outcome Socket
make_socket server ipaddr calls = do
  init_sock ← or_exit calls.socket
  check calls.setsockopt
  check calls.bind
  check calls.listen
  new_commu_sock ← or_exit calls.accept
  done (record (new_socket server) {
    listen_sock = some init_sock;
    commu_sock = new_commu_sock ∷ [];
  })
make_socket client ipaddr calls = do
  init_sock ← or_exit calls.socket
  check (ltb 0 (length ipaddr))
  check calls.inet_pton
  check calls.connect
  done (record (new_socket client) { commu_sock = init_sock ∷ [] })

abbrev pub is_server : SockType → Bool
is_server server = true
is_server client = false

-- `NewChannel`, on what `listen` and `accept` answer.
unfoldable pub new_channel : Bool → Option ℕ → Socket → Outcome (ℕ × Socket)
new_channel listens accepted s = do
  check (is_server s.socktype)
  check listens
  new_commu_sock ← or_exit accepted
  done (new_commu_sock, record s { commu_sock = s.commu_sock ++ new_commu_sock ∷ [] })

-- `commu_sock[0]`; an element that is not there ends the model.
abbrev pub first : List ℕ → Outcome ℕ
first [] = aborted
first (fd ∷ fds) = done fd

-- `GetFirst`
unfoldable pub get_first : Socket → Outcome ℕ
get_first s = first s.commu_sock

-- `Send`, on what `send` answers for a descriptor and the bytes.
unfoldable pub send : (ℕ → Bytes → ℕ) → Bytes → Socket → Outcome ℕ
send answer buf s = do check (leb (length buf) mtu); fd ← first s.commu_sock; done (answer fd buf)

-- `Recv`, on what `read` answers for a descriptor and a length, with the bytes that it leaves.
unfoldable pub recv : (ℕ → ℕ → ℕ × Bytes) → ℕ → Socket → Outcome (ℕ × Bytes)
recv answer len s = do check (leb len mtu); fd ← first s.commu_sock; done (answer fd len)

-- The descriptors that the destructor closes.
unfoldable pub closed_by_destructor : Socket → List ℕ
closed_by_destructor s = elim s.socktype [
  | server ↦ s.commu_sock
  | client ↦ elim (first s.commu_sock) [ done fd ↦ fd ∷ [] | waiting ↦ [] | aborted ↦ [] ]
]

-- A server's further connections, one after the other.
unfoldable pub new_channels : List (Option ℕ) → Socket → Outcome Socket
unfolding new_channel
new_channels [] s = done s
new_channels (accepted ∷ more) s = new_channel true accepted s >>= λ r. new_channels more (r.1)

-- A server's socket with these connections.
abbrev serving : Option ℕ → List ℕ → Socket
serving listener fds = record { socktype = server; listen_sock = listener; commu_sock = fds }

new_channels-some :
    (fds : List ℕ) (listener : Option ℕ) (old : List ℕ)
    → new_channels (map some fds) (serving listener old) ≡ done (serving listener (old ++ fds))
unfolding new_channels new_channel
new_channels-some [] listener old = ap (λ l. done (serving listener l)) (sym (append-nil old))
new_channels-some (fd ∷ fds) listener old =
    new_channels-some fds listener (old ++ fd ∷ [])
    ∙ ap (λ l. done (serving listener l)) (append_assoc old (fd ∷ []) fds)

-- A server's socket whose system calls succeed, with any number of further clients, has their
-- connections in the order in which they came, the first one for `GetFirst`. Its destructor closes
-- every connection, but of the descriptors that were opened the listening one stays open.
pub server_socket_lem :
    (ipaddr : Bytes) (calls : Calls) (listener fd : ℕ) (fds : List ℕ)
    → calls.socket ≡ some listener
    → calls.accept ≡ some fd
    → calls.setsockopt ≡ true
    → calls.bind ≡ true
    → calls.listen ≡ true
    → (s : Socket) × ((make_socket server ipaddr calls >>= new_channels (map some fds)) ≡ done s)
      × (get_first s ≡ done fd)
      × (s.listen_sock ≡ some listener)
      × (closed_by_destructor s ≡ fd ∷ fds)
unfolding make_socket get_first closed_by_destructor
server_socket_lem ipaddr calls listener fd fds opened accepted opt bound listens = (
  serving (some listener) (fd ∷ fds),
  rw (opened, opt, bound, listens, accepted) (new_channels-some fds (some listener) (fd ∷ [])),
  refl,
  refl,
  refl,
)
