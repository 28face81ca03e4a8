-- ===== src/Instance.antt =====
-- include/instance.h and server.cc: the store, the server and the client that the options name.
use pmraccess.Base.{
  ◌≡◌, refl, Bool, true, false, Option, none, some, [], ◌∷◌, if◌then◌else◌, bytes_eq, Bytes,
}
use pmraccess.Outcome.{Outcome, done, aborted}

-- The names of the options.
abbrev pub leveldb_name : Bytes
leveldb_name = b'l' ∷ b'e' ∷ b'v' ∷ b'e' ∷ b'l' ∷ b'd' ∷ b'b' ∷ []

abbrev pub cuckoodb_name : Bytes
cuckoodb_name = b'c' ∷ b'u' ∷ b'c' ∷ b'k' ∷ b'o' ∷ b'o' ∷ b'd' ∷ b'b' ∷ []

abbrev pub pmemaccess_name : Bytes
pmemaccess_name = b'p' ∷ b'm' ∷ b'e' ∷ b'm' ∷ b'a' ∷ b'c' ∷ b'c' ∷ b'e' ∷ b's' ∷ b's' ∷ []

abbrev pub pmraccess_name : Bytes
pmraccess_name = b'p' ∷ b'm' ∷ b'r' ∷ b'a' ∷ b'c' ∷ b'c' ∷ b'e' ∷ b's' ∷ b's' ∷ []

abbrev pub groupaccess_name : Bytes
groupaccess_name = b'g' ∷ b'r' ∷ b'o' ∷ b'u' ∷ b'p' ∷ b'a' ∷ b'c' ∷ b'c' ∷ b'e' ∷ b's' ∷ b's' ∷ []

-- The classes of `DBType`, and those of `Client` and `Server`.
pub data DbKind : Type 0 where
  level_db cuckoo_db : DbKind

pub data Front : Type 0 where
  pmem_front pmr_front group_front : Front

-- `OpenDB`; `none` is the null pointer.
unfoldable pub open_db : Bytes → Option DbKind
open_db db_type =
    if bytes_eq db_type leveldb_name
    then some level_db
    else if bytes_eq db_type cuckoodb_name
    then some cuckoo_db
    else none

-- `NewClient`
unfoldable pub new_client : Bytes → Option Front
new_client front_type =
    if bytes_eq front_type pmemaccess_name
    then some pmem_front
    else if bytes_eq front_type pmraccess_name
    then some pmr_front
    else if bytes_eq front_type groupaccess_name
    then some group_front
    else none

-- A server and the store that it was given.
pub record ServerInstance : Type 0 where
  pub front : Front
  pub db : Option DbKind

abbrev pub with_db : Front → Option DbKind → Option ServerInstance
with_db f db = some (record { front = f; db = db })

-- `NewServer`
unfoldable pub new_server : Bytes → Option DbKind → Option ServerInstance
new_server front_type db =
    if bytes_eq front_type pmemaccess_name
    then with_db pmem_front db
    else if bytes_eq front_type pmraccess_name
    then with_db pmr_front db
    else if bytes_eq front_type groupaccess_name
    then with_db group_front db
    else none

-- `main` of server.cc up to `Listen`.
unfoldable pub serve : Bytes → Bytes → Outcome ServerInstance
unfolding open_db new_server
serve front_type db_type = elim (new_server front_type (open_db db_type)) [
  | none ↦ aborted
  | some s ↦ done s
]

-- `main` goes on to `Listen` exactly where `NewClient` makes a client of the same front end, and
-- otherwise exits. It does so whatever `OpenDB` returned: for a store type that there is not, the
-- server has a null pointer for its store.
pub serve_lem :
    (front_type db_type : Bytes)
    → serve front_type db_type ≡ elim (new_client front_type) [
      | none ↦ aborted
      | some f ↦ done (record { front = f; db = open_db db_type })
    ]
unfolding serve new_server new_client
serve_lem front_type db_type =
    same (bytes_eq front_type pmemaccess_name) (bytes_eq front_type pmraccess_name)
      (bytes_eq front_type groupaccess_name) (open_db db_type)
  where
    same :
        (a b c : Bool) (db : Option DbKind)
        → elim (if a
              then with_db pmem_front db
              else if b
              then with_db pmr_front db
              else if c
              then with_db group_front db
              else none)
            as (λ _. Outcome ServerInstance) [ none ↦ aborted | some s ↦ done s ]
          ≡ elim (if a
                then some pmem_front
                else if b
                then some pmr_front
                else if c
                then some group_front
                else none)
              as (λ _. Outcome ServerInstance) [
                | none ↦ aborted
                | some f ↦ done (record { front = f; db = db })
              ]
    same true b c db = refl
    same false true c db = refl
    same false false true db = refl
    same false false false db = refl
