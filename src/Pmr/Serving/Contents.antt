-- ===== src/Pmr/Serving/Contents.antt =====
-- What the clients of a frontend/pmr server read, whatever the order of their calls.
use pmraccess.Base.{
  ℕ, ◌<◌, ◌≡◌, refl, sym, ◌∙◌, ap, true, false, Bool, Option, none, some, List, [], arith, inl, inr,
  if◌then◌else◌, bytes_eq, bytes_eq→eq, ltb, Bytes, Mem,
}
use pmraccess.Outcome.{Outcome, done, waiting, ensured}
use pmraccess.Wire.{max_async_size}
use pmraccess.Rdma.Nic.{Nic}
use pmraccess.Store.{Meta, DbOps, DbLaws, HashMapOps, HashMapLaws}
use pmraccess.Uring.{UringOps, UringLaws}
use pmraccess.Bitset.{blindset}
use pmraccess.Bitset.Laws.{test}
use pmraccess.Bitset.Alloc.{blindset_lem}
use pmraccess.Pmr.State.{Server, chunk_count}
use pmraccess.Pmr.Client.{Session, send_write}
use pmraccess.Pmr.Pending.{Entry}
use pmraccess.Pmr.Invariant.{Inv, contents, indexed_or}
use pmraccess.Pmr.Flush.{contents-flush}
use pmraccess.Pmr.Closing.{closing, send_close_step}
use pmraccess.Pmr.Reads.{send_get_value, send_get_absent}
use pmraccess.Pmr.Deletes.{send_delete_lem}
use pmraccess.Pmr.Full.{connect_waits, send_write_waits}
use pmraccess.Pmr.Sessions.{connect, connect_lem}
use pmraccess.Pmr.Serving.{
  Desk, Hall, session, seat, desk_of, Change, keeps, binds, unbinds, after, Step, connects, writes,
  reads, misses, deletes, closes, drains,
}
use pmraccess.Pmr.Serving.Places.{Well, pending-Held}
use pmraccess.Pmr.Serving.Shifts.{Shift-Well}
use pmraccess.Pmr.Serving.Moves.{quiet-Shift}
use pmraccess.Pmr.Serving.Steps.{connect-Shift}
use pmraccess.Pmr.Serving.Closes.{close-Shift}
use pmraccess.Pmr.Serving.Drains.{pass-Well}
use pmraccess.Pmr.Serving.Writes.{write-Well}

module _ {K S T : Type 0} (u : UringOps K) {entries : ℕ} (laws : UringLaws u entries) (nic : Nic)
    (db : DbOps S) (h : HashMapOps Meta T) (map_laws : HashMapLaws h)
    (view : S → Bytes → Option Bytes) (store_laws : DbLaws db view) where
  -- The desks are as they should be, and a reader sees the change.
  abbrev pub Kept : Hall K S T → Change → Hall K S T → Type 0
  Kept x c y =
      (es : ℕ → List Entry) × (slot : ℕ → ℕ) × Well u laws h y es slot
      × ((j : Bytes) → contents h view y.server j ≡ after c (contents h view x.server) j)

  -- A chunk is free where `AllocChunk` returned.
  some_free :
      (x : Hall K S T) (es : ℕ → List Entry) (slot : ℕ → ℕ) {A : Type 0} (o : Outcome A) (a : A)
      → Well u laws h x es slot
      → (blindset x.server.bitmap ≡ waiting → o ≡ waiting)
      → o ≡ done a
      → (free : ℕ) × (free < chunk_count) × (test x.server.bitmap free ≡ false)
  some_free x es slot o a w stuck ran = elim (blindset_lem x.server.bitmap w.drain.valid) [
    | inl (slot', b, ran', took) ↦ (slot', omega (arith, took.within, w.drain.sized), took.was_free)
    | inr (ran', all) ↦ absurd (never (sym (stuck ran') ∙ ran))
  ]
    where
      never : waiting ≡ done a → ⊥
      never p = cc

  connect-Kept :
      (x : Hall K S T) (es : ℕ → List Entry) (slot : ℕ → ℕ) (i : ℕ) (local_buf send_buf : Mem)
      (y : Session S T)
      → Well u laws h x es slot
      → x.desks i ≡ none
      → connect nic db h local_buf send_buf x.server ≡ done y
      → Kept x keeps (seat i (some (desk_of y)) y.server x)
  unfolding after
  connect-Kept x es slot i local_buf send_buf y w vacant ran =
      let (free, lt, clear_bit) =
        some_free x es slot (connect nic db h local_buf send_buf x.server) y w
          (connect_waits nic db h local_buf send_buf x.server) ran in
      let (z, slot', ran_z, inv, took, left, empty_head) =
        connect_lem nic db h local_buf send_buf x.server free w.drain.valid w.drain.sized lt
          clear_bit
          (λ j m p.
            let (k, d, e, there, mine, at) = w.cover j m p in
            (pending-Held h d x.server (es k) (slot k) j e m (w.each k d there) mine at).0) in
      ensured (λ y'. Kept x keeps (seat i (some (desk_of y')) y'.server x))
        (rw ran_z (
          _,
          _,
          Shift-Well u laws h x es slot i (some (desk_of z)) [] slot' z.server w (
              connect-Shift u laws db h map_laws view store_laws x es slot i slot' z w vacant inv
                took left),
          λ j. ap (λ s. contents h view s j) left,
        ))
        ran

  -- A call at a desk that leaves the pending records and the chunk.
  quiet-Kept :
      (x : Hall K S T) (es : ℕ → List Entry) (slot : ℕ → ℕ) (i : ℕ) (d : Desk) (y : Session S T)
      (store : S) (c : Change)
      → Well u laws h x es slot
      → x.desks i ≡ some d
      → Inv h y (es i) (slot i)
      → y.server ≡ record (x.server) { db = store }
      → ((j : Bytes) → contents h view y.server j ≡ after c (contents h view x.server) j)
      → Kept x c (seat i (some (desk_of y)) y.server x)
  quiet-Kept x es slot i d y store c w here inv left sees = (
    _,
    _,
    Shift-Well u laws h x es slot i (some (desk_of y)) (es i) (slot i) y.server w
        (quiet-Shift u laws h x es slot i d y store w here inv left),
    sees,
  )

  deleted_contents :
      (o : Option Meta) (region : Mem) (j key : Bytes) (old : Option Bytes) (b : Bool)
      → bytes_eq key j ≡ b
      → (b ≡ true → o ≡ none)
      → indexed_or region j o (if b then none else old)
        ≡ (if b then none else indexed_or region j o old)
  deleted_contents o region j key old true e k = rw (k refl) refl
  deleted_contents o region j key old false e k = refl

  -- Every step that the clients and `UringRun` can take keeps the desks, and does to what a reader
  -- sees what it stands for.
  pub Step-Kept :
      (x y : Hall K S T) (c : Change) (es : ℕ → List Entry) (slot : ℕ → ℕ)
      → Well u laws h x es slot
      → Step u nic db h view x c y
      → Kept x c y
  unfolding after
  Step-Kept _ _ _ es slot w (connects {x} {y} i local_buf send_buf vacant ran) =
      connect-Kept x es slot i local_buf send_buf y w vacant ran
  Step-Kept _ _ _ es slot w (writes {x} {y} i d op key val here is_write fits alone ran) =
      let inv : Inv h (session d x.server) (es i) (slot i) = w.each i d here in
      let (z, ran_z, (es', slots', w', spare), sees) =
        write-Well u laws nic db h map_laws view store_laws x es slot i d op key val w here is_write
          fits alone
          (λ full.
            some_free x es slot (send_write nic db h op key val (session d x.server)) y w
              (send_write_waits nic db h (session d x.server) op key val inv.flag full) ran) in
      ensured (λ y'. Kept x (binds key val) (seat i (some (desk_of y')) y'.server x))
        (rw ran_z (es', slots', w', sees)) ran
  Step-Kept _ _ _ es slot w (reads {x} {y} {r} i d key val here small bound short ran) =
      let (z, ran_z, left, inv) =
        send_get_value nic db h view store_laws (session d x.server) (es i) (slot i) key val
          (w.each i d here) small bound short in
      ensured (λ a. Kept x keeps (seat i (some (desk_of (a.1))) (a.1).server x))
        (rw ran_z (
          quiet-Kept x es slot i d z x.server.db keeps w here inv left
            (λ j. ap (λ s. contents h view s j) left)))
        ran
  Step-Kept _ _ _ es slot w (misses {x} {y} {r} i d key here small absent nothing ran) =
      let (z, ran_z, left, inv) =
        send_get_absent nic db h view store_laws (session d x.server) (es i) (slot i) key
          (w.each i d here) small absent nothing in
      ensured (λ a. Kept x keeps (seat i (some (desk_of (a.1))) (a.1).server x))
        (rw ran_z (
          quiet-Kept x es slot i d z x.server.db keeps w here inv left
            (λ j. ap (λ s. contents h view s j) left)))
        ran
  Step-Kept _ _ _ es slot w (deletes {x} {y} {r} i d key here small absent ran) =
      let (z, ran_z, inv, sees, left) =
        send_delete_lem nic db h view store_laws (session d x.server) (es i) (slot i) key
          (w.each i d here) small in
      ensured (λ a. Kept x (unbinds key) (seat i (some (desk_of (a.1))) (a.1).server x))
        (rw ran_z (
          quiet-Kept x es slot i d z (db.delete key x.server.db).1 (unbinds key) w here inv left
            (λ j.
              sees j
              ∙ deleted_contents (h.find j x.server.map) x.server.region j key (view x.server.db j)
                  (bytes_eq key j) refl
                  (λ same.
                    ap (λ k. h.find k x.server.map) (sym (bytes_eq→eq key j same)) ∙ absent))))
        ran
  Step-Kept _ _ _ es slot w (closes {x} {s} i d here ran) =
      let inv : Inv h (session d x.server) (es i) (slot i) = w.each i d here in
      ensured (λ s'. Kept x keeps (seat i none s' x))
        (rw
          (send_close_step nic db h (session d x.server) (es i) (slot i) (ltb 0 d.clerk.buf_head)
            inv refl)
          (
            _,
            _,
            Shift-Well u laws h x es slot i none [] (slot i)
                (closing nic db h (ltb 0 d.clerk.buf_head) d.clerk x.server) w
                (close-Shift u laws nic db h map_laws view store_laws x es slot i d _ w here refl),
            λ j. closed_contents (ltb 0 d.clerk.buf_head) x.server d (es i) (slot i) j inv,
          ))
        ran
    where
      closed_contents :
          (used : Bool) (s : Server S T) (d' : Desk) (es_i : List Entry) (slot_i : ℕ) (j : Bytes)
          → Inv h (session d' s) es_i slot_i
          → contents h view (closing nic db h used d'.clerk s) j ≡ contents h view s j
      closed_contents true s d' es_i slot_i j inv' =
          contents-flush db h map_laws view store_laws (session d' s) es_i slot_i max_async_size j
            inv'
      closed_contents false s d' es_i slot_i j inv' = refl
  Step-Kept _ _ _ es slot w (drains {x} {r} {s} ran) =
      let (r', s', ran', w', same_db, same_map, same_region) = pass-Well u laws h x es slot w in
      ensured (λ a. Kept x keeps (record x { ring = a.0; server = a.1 }))
        (rw ran' (es, slot, w', λ j. rw (same_db, same_map, same_region) refl)) ran
