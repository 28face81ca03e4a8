-- ===== src/Pmr/Wrote.antt =====
-- What `SendWrite` of frontend/pmr/pmr.cc leaves of the server, while the chunk has room.
use pmraccess.Base.{
  Mem, ℕ, ◌+◌, ◌*◌, ◌<◌, ◌≤◌, ◌≡◌, refl, sym, ◌∙◌, ap, Bool, true, false, Option, none, some, List,
  [], ◌∷◌, ◌++◌, arith, if◌then◌else◌, ◌⊎◌, inl, inr, Option-cases, length, bytes_eq, Bytes, store,
  load, load-store_below, store_below, load-store-load, ◌^◌, load-store_above,
}
use pmraccess.Wire.{max_async_size}
use pmraccess.Store.{Meta, HashMapOps}
use pmraccess.Pmr.Client.{Session}
use pmraccess.Pmr.Pending.{
  IsStored, AllStored, AllStored-append, AllStored-grow, Entry, pending, pending_append,
}
use pmraccess.Pmr.Invariant.{Inv, Elsewhere, contents, contents-pending, indexed_or}

-- The region once the record stands behind the others: the new record and all old ones are stored.
module _ (buf region : Mem) (chunk head : ℕ) (es : List Entry) (key val : Bytes)
    (bytes : load buf (16 + length key) (length val) ≡ val) (small : length key < 2 ^ 16)
    (old : AllStored region chunk head es) where
  abbrev total : ℕ
  total = 8 + length key + length val

  abbrev grown : Mem
  grown = store region (chunk + head) (load buf 8 total)

  abbrev entry : Entry
  entry = record { off = head; key = key; val = val }

  entry-IsStored : IsStored grown chunk (head + total) entry
  entry-IsStored =
      let at : chunk + head + 8 + length key ≡ chunk + head + (8 + length key) = omega arith in
      let from : 8 + (8 + length key) ≡ 16 + length key = omega arith in
      let copied : load grown (chunk + head + (8 + length key)) (length val)
          ≡ load buf (8 + (8 + length key)) (length val) =
        load-store-load region buf 8 (chunk + head) total (8 + length key) (length val)
          (omega arith) in
      record { inside = omega arith; key_fits = small; bytes = rw at (copied ∙ rw from bytes) }

  pub AllStored-grown : AllStored grown chunk (head + total) (es ++ entry ∷ [])
  AllStored-grown =
      AllStored-append grown chunk (head + total) es entry
        (AllStored-grow region grown chunk head (head + total) es old (omega arith)
          (λ i p q. store_below region (chunk + head) (load buf 8 total) i q))
        entry-IsStored

module _ {S T : Type 0} (h : HashMapOps Meta T) where
  -- A value in another chunk is not touched.
  pub kept-Elsewhere :
      (x : Session S T) (es : List Entry) (slot : ℕ) (j : Bytes) (m : Meta) (bs : Bytes)
      → Inv h x es slot
      → Elsewhere x.server.bitmap slot j m
      → x.clerk.buf_head + length bs ≤ max_async_size
      → load
          (store x.server.region (x.clerk.chunk_offset + x.clerk.buf_head) bs)
          (m.addr + length j)
          m.value_size
        ≡ load x.server.region (m.addr + length j) m.value_size
  kept-Elsewhere x es slot j m bs inv w room = elim (below_or_above w.0.place slot w.1) [
    | inl below ↦
        load-store_below x.server.region (m.addr + length j) m.value_size
          (x.clerk.chunk_offset + x.clerk.buf_head) bs (omega (arith, inv.chunk_at, w.0.to))
    | inr above ↦
        load-store_above x.server.region (m.addr + length j) m.value_size
          (x.clerk.chunk_offset + x.clerk.buf_head) bs (omega (arith, inv.chunk_at, w.0.from))
  ]
    where
      below_or_above : (m n : ℕ) → ¬ (m ≡ n) → (m < n) ⊎ (n < m)
      below_or_above m n e = ground arith

  -- What a write of a record leaves of the server: the index for other keys, the region outside
  -- the chunk, and the rest.
  pub record Wrote (x y : Session S T) (slot : ℕ) (key : Bytes) : Type 0 where
    pub others :
        (j : Bytes) → bytes_eq key j ≡ false → h.find j y.server.map ≡ h.find j x.server.map
    pub outside :
        (i : ℕ)
        → (i < max_async_size * slot) ⊎ (max_async_size * slot + max_async_size ≤ i)
        → y.server.region i ≡ x.server.region i
    pub values :
        (j : Bytes) (m : Meta)
        → Elsewhere x.server.bitmap slot j m
        → load y.server.region (m.addr + length j) m.value_size
          ≡ load x.server.region (m.addr + length j) m.value_size
    pub same_bits : y.server.bitmap ≡ x.server.bitmap
    pub same_queue : y.server.queue ≡ x.server.queue
    pub same_db : y.server.db ≡ x.server.db

module _ {S T : Type 0} (h : HashMapOps Meta T) (view : S → Bytes → Option Bytes) where
  -- So a reader sees the value under the key, and every other key as before.
  pub contents_last :
      (x y : Session S T) (es : List Entry) (slot : ℕ) (key val : Bytes) (j : Bytes)
      → Inv h x es slot
      → Inv h y (es ++ record { off = x.clerk.buf_head; key = key; val = val } ∷ []) slot
      → Wrote h x y slot key
      → contents h view y.server j
        ≡ (if bytes_eq key j then some val else contents h view x.server j)
  contents_last x y es slot key val j inv inv' w = by_key (bytes_eq key j) refl
    where
      e : Entry
      e = record { off = x.clerk.buf_head; key = key; val = val }

      kept :
          (o : Option Meta)
          → h.find j x.server.map ≡ o
          → pending es j ≡ none
          → indexed_or y.server.region j o (view y.server.db j)
            ≡ indexed_or x.server.region j o (view x.server.db j)
      kept none q p = ap (λ d. view d j) w.same_db
      kept (some m) q p = ap some (w.values j m (inv.apart j m p q))

      by_key :
          (b : Bool)
          → bytes_eq key j ≡ b
          → contents h view y.server j ≡ (if b then some val else contents h view x.server j)
      by_key true same =
          contents-pending h view y (es ++ e ∷ []) slot j e inv'
            (pending_append es e j ∙ ap (λ (b : Bool). if b then some e else pending es j) same)
      by_key false differs = elim (Option-cases (pending es j)) [
        | inl p ↦
            ap (λ o. indexed_or y.server.region j o (view y.server.db j)) (w.others j differs)
            ∙ kept (h.find j x.server.map) refl p
        | inr (d, p) ↦
            contents-pending h view y (es ++ e ∷ []) slot j d inv' (
              pending_append es e j
              ∙ ap (λ (b : Bool). if b then some e else pending es j) differs
              ∙ p)
            ∙ sym (contents-pending h view x es slot j d inv p)
      ]
