-- ===== src/Bench/Input.antt =====
-- `LoadData` of benchmark.cc on the text of its two files.
use pmraccess.Base.{
  ℕ, zero, suc, Bool, true, false, Option, none, some, List, [], ◌∷◌, ◌==◌, if◌then◌else◌, length,
  bytes_eq, Bytes,
}
use pmraccess.Wire.{Operation, put, get, update, delete}

-- Blanks, as `>>` of a stream takes them: the space and the codes 9 to 13.
abbrev pub is_space : ℕ → Bool
is_space c =
    if c == 32
    then true
    else if c == 10
    then true
    else if c == 9
    then true
    else if c == 13
    then true
    else if c == 11
    then true
    else c == 12

-- `>>` into a string: skip blanks, take characters up to a blank. The last component is `good()`: at
-- the end of the text it is false.
abbrev pub skip : Bytes → Bytes
skip [] = []
skip (c ∷ cs) = let rest = skip cs in if is_space c then rest else c ∷ cs

unfoldable pub word : Bytes → Bytes × Bytes × Bool
word [] = ([], [], false)
word (c ∷ cs) =
    let rest = word cs in if is_space c then ([], c ∷ cs, true) else (c ∷ rest.0, rest.1, rest.2)

-- `infile >> op >> key`, where the stream is good afterwards.
unfoldable pub read_pair : Bytes → Option ((Bytes × Bytes) × Bytes)
unfolding word
read_pair text =
    let op = word (skip text) in
    let key = word (skip op.1) in
    if op.2 then (if key.2 then some ((op.0, key.0), key.1) else none) else none

-- The `while (true)` loop up to its `break`, on fuel: each round takes characters.
unfoldable pub read_pairs : ℕ → Bytes → List (Bytes × Bytes)
unfolding read_pair
read_pairs zero text = []
read_pairs (suc n) text = elim (read_pair text) [
  | none ↦ []
  | some (pair, rest) ↦ let more = read_pairs n rest in pair ∷ more
]

-- "INSERT", "READ", "UPDATE", "DELETE"
abbrev pub insert_word : Bytes
insert_word = 73 ∷ 78 ∷ 83 ∷ 69 ∷ 82 ∷ 84 ∷ []

abbrev pub read_word : Bytes
read_word = 82 ∷ 69 ∷ 65 ∷ 68 ∷ []

abbrev pub update_word : Bytes
update_word = 85 ∷ 80 ∷ 68 ∷ 65 ∷ 84 ∷ 69 ∷ []

abbrev pub delete_word : Bytes
delete_word = 68 ∷ 69 ∷ 76 ∷ 69 ∷ 84 ∷ 69 ∷ []

-- What the loop over the first file leaves in `init_keys_`, and whether `LoadData` goes on.
unfoldable pub load_keys : List (Bytes × Bytes) → List Bytes × Bool
load_keys [] = ([], true)
load_keys ((op, key) ∷ ps) =
    let rest = load_keys ps in
    if bytes_eq op insert_word then (key ∷ rest.0, rest.1) else ([], false)

unfoldable pub op_of_text : Bytes → Option Operation
op_of_text op =
    if bytes_eq op insert_word
    then some put
    else if bytes_eq op read_word
    then some get
    else if bytes_eq op update_word
    then some update
    else if bytes_eq op delete_word
    then some delete
    else none

-- What the loop over the second file leaves in `ops_` and `keys_`.
unfoldable pub load_ops : List (Bytes × Bytes) → List (Operation × Bytes)
unfolding op_of_text
load_ops [] = []
load_ops ((op, key) ∷ ps) =
    let rest = load_ops ps in elim (op_of_text op) [ none ↦ [] | some o ↦ (o, key) ∷ rest ]

-- `LoadData` on files that are there. A line of the first that is no INSERT ends it before the second
-- is read.
unfoldable pub load_data : Bool → Bool → Bytes → Bytes → List Bytes × List (Operation × Bytes)
unfolding load_keys load_ops read_pairs
load_data queryonly loadonly init_text txn_text =
    let keys =
      if queryonly then ([], true) else load_keys (read_pairs (length init_text) init_text) in
    let ops = if loadonly then [] else load_ops (read_pairs (length txn_text) txn_text) in
    (keys.0, if keys.1 then ops else [])
