-- ===== src/Pmr/Turns.antt =====
-- What a turn of `PMRClerk::Run` of frontend/pmr/pmr.cc does to the chunks, whatever its buffer holds.
use pmraccess.Base.{
  ℕ, ◌*◌, ◌≡◌, ◌⊎◌, inl, inr, refl, true, false, Option, none, some, [], ◌∷◌, ◌++◌, ltb, ◌==◌,
  load32, Bool-cases, leb, ◌+◌, length, Bytes,
}
use pmraccess.Outcome.{Outcome, done, waiting, aborted, Ensures}
use pmraccess.Wire.{
  put_value, send_buf_size, Operation, put, update, get, delete, alloc, close, max_async_size, u32,
  client_done, clerk_done, request_op,
}
use pmraccess.Wire.Transfer.{set_header}
use pmraccess.Store.{Meta, GetResult, found, missing, thrown, DbOps, HashMapOps}
use pmraccess.Bitset.{AtomicBitset, blindset}
use pmraccess.Pmr.State.{Item, Server, Clerk, no_chunk}
use pmraccess.Pmr.Clerk.{
  Turn, replied, closed, flush, handle_put, handle_get, reply_get, reply_value, handle_delete,
  handle_alloc, handle_close, dispatch, turn,
}
use pmraccess.Pmr.System.{slot_of}

module _ {S T : Type 0} where
  -- The clerk's chunk has been queued.
  abbrev pub Queued : Clerk → Server S T → Server S T → Type 0
  Queued c s s' = (i : Item) × (i.chunk ≡ slot_of c) × (s'.queue ≡ s.queue ++ i ∷ [])

  -- The server has taken a chunk for the clerk.
  abbrev pub Allocated : Clerk → Server S T → Server S T → Type 0
  Allocated c' s s' =
      (slot : ℕ) × (blindset s.bitmap ≡ done (slot, s'.bitmap))
      × (c'.chunk_offset ≡ u32 (max_async_size * slot))

  -- The turn of a clerk with a chunk: it keeps its chunk, or it queues it and has a new one; in the
  -- end it queues its chunk or leaves it.
  abbrev pub Effect : Clerk → Server S T → Turn S T → Type 0
  Effect c s (replied c' s') =
      ((c'.chunk_offset ≡ c.chunk_offset) × (s'.bitmap ≡ s.bitmap) × (s'.queue ≡ s.queue))
      ⊎ (Queued c s s' × Allocated c' s s')
  Effect c s (closed s') = (s'.bitmap ≡ s.bitmap) × ((s'.queue ≡ s.queue) ⊎ Queued c s s')

  -- The first turn of a clerk.
  abbrev pub Joined : Server S T → Turn S T → Type 0
  Joined s (replied c' s') = (s'.queue ≡ s.queue) × Allocated c' s s'
  Joined s (closed s') = Unit

  module _ (db : DbOps S) (h : HashMapOps Meta T) where
    flush-Queued : (n : ℕ) (c : Clerk) (s : Server S T) → Queued c s (flush db h n c s)
    unfolding flush
    flush-Queued n c s = (_, refl, refl)

    reply_value-Effect :
        (v : Bytes) (c : Clerk) (s : Server S T) → Ensures (Effect c s) (reply_value db h v c s)
    unfolding reply_value put_value
    reply_value-Effect v c s = elim (Bool-cases (leb (16 + length v) send_buf_size)) [
      | inl fits ↦ rw fits (inl (refl, refl, refl))
      | inr over ↦ rw over tt
    ]

    get_lem :
        (n : ℕ) (m : Option Meta) (g : GetResult) (c : Clerk) (s : Server S T)
        → Ensures (Effect c s) (reply_get db h n m g c s)
    unfolding reply_get
    get_lem n (some m) g c s = reply_value-Effect _ c s
    get_lem n none (found v) c s = reply_value-Effect v c s
    get_lem n none missing c s = inl (refl, refl, refl)
    get_lem n none thrown c s = tt

    -- The turn that answers ALLOC, by what `blindset` does.
    alloc_lem :
        (c : Clerk) (s : Server S T) (o : Outcome (ℕ × AtomicBitset))
        → ltb c.chunk_offset no_chunk ≡ true
        → blindset s.bitmap ≡ o
        → Ensures (Effect c s) (handle_alloc db h c s)
    unfolding handle_alloc flush
    alloc_lem c s (done (slot, b)) had e = rw (had, e) (inr ((_, refl, refl), (slot, e, refl)))
    alloc_lem c s waiting had e = rw (had, e) tt
    alloc_lem c s aborted had e = rw (had, e) tt

    first_alloc_lem :
        (c : Clerk) (s : Server S T) (o : Outcome (ℕ × AtomicBitset))
        → ltb c.chunk_offset no_chunk ≡ false
        → blindset s.bitmap ≡ o
        → Ensures (Joined s) (handle_alloc db h c s)
    unfolding handle_alloc
    first_alloc_lem c s (done (slot, b)) had e = rw (had, e) (refl, (slot, e, refl))
    first_alloc_lem c s waiting had e = rw (had, e) tt
    first_alloc_lem c s aborted had e = rw (had, e) tt

    close_lem : (c : Clerk) (s : Server S T) → Ensures (Effect c s) (handle_close db h c s)
    unfolding handle_close flush
    close_lem c s = elim (Bool-cases (ltb 0 c.buf_head)) [
      | inl some_bytes ↦ rw some_bytes (refl, inr (_, refl, refl))
      | inr no_bytes ↦ rw no_bytes (refl, inl refl)
    ]

    dispatch_lem :
        (op : Option Operation) (c : Clerk) (s : Server S T)
        → ltb c.chunk_offset no_chunk ≡ true
        → Ensures (Effect c s) (dispatch db h op c s)
    unfolding dispatch handle_put handle_delete handle_get
    dispatch_lem (some put) c s had = inl (refl, refl, refl)
    dispatch_lem (some update) c s had = inl (refl, refl, refl)
    dispatch_lem (some get) c s had = get_lem _ _ _ c s
    dispatch_lem (some delete) c s had = inl (refl, refl, refl)
    dispatch_lem (some alloc) c s had = alloc_lem c s _ had refl
    dispatch_lem (some close) c s had = close_lem c s
    dispatch_lem none c s had = tt

    -- A turn of a clerk that has a chunk.
    pub turn_lem :
        (c : Clerk) (s : Server S T)
        → ltb c.chunk_offset no_chunk ≡ true
        → Ensures (Effect c s) (turn db h c s)
    unfolding turn
    turn_lem c s had = elim (Bool-cases (load32 c.send_buf 0 == client_done)) [
      | inl up ↦ rw up (dispatch_lem _ _ s had)
      | inr down ↦ rw down tt
    ]

    -- The turn that answers ALLOC to a clerk that has no chunk.
    pub first_turn_lem :
        (c : Clerk) (s : Server S T)
        → ltb c.chunk_offset no_chunk ≡ false
        → request_op (set_header c.send_buf clerk_done) 8 ≡ some alloc
        → Ensures (Joined s) (turn db h c s)
    unfolding turn dispatch
    first_turn_lem c s none_yet asked = elim (Bool-cases (load32 c.send_buf 0 == client_done)) [
      | inl up ↦
          rw (up, asked)
            (first_alloc_lem (record c { send_buf = set_header c.send_buf clerk_done }) s _ none_yet
              refl)
      | inr down ↦ rw down tt
    ]
