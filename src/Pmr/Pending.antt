-- ===== src/Pmr/Pending.antt =====
-- The records that a clerk has indexed and not yet handed to the store.
use pmraccess.Base.{
  ℕ, ◌+◌, ◌^◌, ◌<◌, ◌≤◌, ◌≡◌, refl, ◌∙◌, ap, true, Option, none, some, List, [], ◌∷◌, ◌++◌, map,
  arith, if◌then◌else◌, ◌⊎◌, inl, inr, length, bytes_eq, Bytes, Mem, load, load-Agree, load_shift,
  lt→ltb,
}
use pmraccess.Wire.{max_async_size}
use pmraccess.Store.{Meta, file_meta, mem_meta, batch_value, batch_entry, file_offset}
use pmraccess.Pmr.Clerk.{copy_chunk}

-- A record at `off` of the chunk.
pub record Entry : Type 0 where
  pub off : ℕ
  pub key : Bytes
  pub val : Bytes

-- The descriptors that `handle_put` makes of it, in the batch and in the index.
abbrev pub batch_meta : Entry → Meta
batch_meta e = file_meta 0 (e.off + 8) (length e.key) (length e.val)

abbrev pub index_meta : ℕ → Entry → Meta
index_meta chunk e = mem_meta (chunk + e.off + 8) (length e.key) (length e.val)

abbrev pub entry_end : Entry → ℕ
entry_end e = e.off + 8 + length e.key + length e.val

-- The last record with a key.
unfoldable pub pending : List Entry → Bytes → Option Entry
pending [] j = none
pending (e ∷ es) j = elim (pending es j) [
  | some l ↦ some l
  | none ↦ if bytes_eq e.key j then some e else none
]

-- The record lies in the first `head` bytes of the chunk, with its value.
pub record IsStored (region : Mem) (chunk head : ℕ) (e : Entry) : Type 0 where
  pub inside : entry_end e ≤ head
  pub key_fits : length e.key < 2 ^ 16
  pub bytes : load region (chunk + e.off + 8 + length e.key) (length e.val) ≡ e.val

abbrev pub AllStored : Mem → ℕ → ℕ → List Entry → Type 0
AllStored region chunk head [] = Unit {0}
AllStored region chunk head (e ∷ es) = IsStored region chunk head e × AllStored region chunk head es

pub pending_append :
    (es : List Entry) (e : Entry) (j : Bytes)
    → pending (es ++ e ∷ []) j ≡ (if bytes_eq e.key j then some e else pending es j)
unfolding pending
pending_append [] e j = refl
pending_append (x ∷ es) e j = ground (arith, pending_append es e j)

pub pending_key :
    (es : List Entry) (j : Bytes) (e : Entry) → pending es j ≡ some e → bytes_eq e.key j ≡ true
unfolding pending
pending_key [] j e h = cc
pending_key (x ∷ es) j e h = ground (arith, pending_key es j e)

pub pending-IsStored :
    (region : Mem) (chunk head : ℕ) (es : List Entry) (j : Bytes) (e : Entry)
    → AllStored region chunk head es
    → pending es j ≡ some e
    → IsStored region chunk head e
unfolding pending
pending-IsStored region chunk head [] j e a h = cc
pending-IsStored region chunk head (x ∷ es) j e a h = elim (last (pending es j) refl) [
  | inl found ↦ pending-IsStored region chunk head es j e a.1 found
  | inr here ↦ rw here at (a.0)
]
  where
    last : (o : Option Entry) → pending es j ≡ o → (pending es j ≡ some e) ⊎ (x ≡ e)
    last none q = inr (ground arith)
    last (some l) q = inl (ground arith)

pub AllStored-append :
    (region : Mem) (chunk head : ℕ) (es : List Entry) (e : Entry)
    → AllStored region chunk head es
    → IsStored region chunk head e
    → AllStored region chunk head (es ++ e ∷ [])
AllStored-append region chunk head [] e a s = (s, tt)
AllStored-append region chunk head (x ∷ es) e a s =
    (a.0, AllStored-append region chunk head es e a.1 s)

-- Stored records stay so when the head moves up and the bytes below the old head are kept.
pub AllStored-grow :
    (region region' : Mem) (chunk head head' : ℕ) (es : List Entry)
    → AllStored region chunk head es
    → head ≤ head'
    → ((i : ℕ) → chunk ≤ i → i < chunk + head → region' i ≡ region i)
    → AllStored region' chunk head' es
AllStored-grow region region' chunk head head' [] a h k = tt
AllStored-grow region region' chunk head head' (e ∷ es) a h k = (
  record {
    inside = omega (arith, a.0.inside);
    key_fits = a.0.key_fits;
    bytes =
        load-Agree region' region (chunk + e.off + 8 + length e.key) (length e.val)
          (λ i p q. k i (omega arith) (omega (arith, a.0.inside)))
        ∙ a.0.bytes;
  },
  AllStored-grow region region' chunk head head' es a.1 h k,
)

batch_entry-copy :
    (region : Mem) (chunk head : ℕ) (e : Entry)
    → head ≤ max_async_size
    → IsStored region chunk head e
    → batch_entry (batch_meta e) (copy_chunk region chunk) ≡ e.val
unfolding file_meta copy_chunk
batch_entry-copy region chunk head e h s =
    let at : file_offset (batch_meta e) + (batch_meta e).key_size ≡ e.off + 8 + length e.key =
      omega (arith, s.inside, s.key_fits) in
    let size : (batch_meta e).value_size ≡ length e.val = omega (arith, s.inside) in
    rw (at, size)
      (load_shift (copy_chunk region chunk) region (e.off + 8 + length e.key)
          (chunk + e.off + 8 + length e.key) (length e.val)
          (λ i p.
            rw (lt→ltb (e.off + 8 + length e.key + i) max_async_size (omega (arith, s.inside)))
              (ap region (omega arith)))
        ∙ s.bytes)

-- What a flush hands to the store is, for every key, the value of its last pending record.
pub batch_value-pending :
    (region : Mem) (chunk head : ℕ) (es : List Entry) (j : Bytes)
    → head ≤ max_async_size
    → AllStored region chunk head es
    → batch_value (map (λ e. e.key) es) (map batch_meta es) (copy_chunk region chunk) j
      ≡ elim (pending es j) [ some e ↦ some e.val | none ↦ none ]
unfolding batch_value pending
batch_value-pending region chunk head [] j h a = refl
batch_value-pending region chunk head (e ∷ es) j h a = ground (
  arith,
  batch_value-pending region chunk head es j h a.1,
  batch_entry-copy region chunk head e h a.0,
)

batch_entry-stored :
    (buf : Mem) (head : ℕ) (e : Entry)
    → head < 2 ^ 32
    → IsStored buf 0 head e
    → batch_entry (batch_meta e) buf ≡ e.val
unfolding file_meta
batch_entry-stored buf head e h s =
    let at : file_offset (batch_meta e) + (batch_meta e).key_size ≡ 0 + e.off + 8 + length e.key =
      omega (arith, s.inside, s.key_fits) in
    let size : (batch_meta e).value_size ≡ length e.val = omega (arith, s.inside) in
    rw (at, size) s.bytes

-- The same for records that are handed over in their own buffer.
pub batch_value-stored :
    (buf : Mem) (head : ℕ) (es : List Entry) (j : Bytes)
    → head < 2 ^ 32
    → AllStored buf 0 head es
    → batch_value (map (λ e. e.key) es) (map batch_meta es) buf j
      ≡ elim (pending es j) [ some e ↦ some e.val | none ↦ none ]
unfolding batch_value pending
batch_value-stored buf head [] j h a = refl
batch_value-stored buf head (e ∷ es) j h a =
    ground (arith, batch_value-stored buf head es j h a.1, batch_entry-stored buf head e h a.0)
