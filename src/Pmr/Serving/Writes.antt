-- ===== src/Pmr/Serving/Writes.antt =====
-- `SendWrite` of frontend/pmr among other clients.
use pmraccess.Base.{
  ℕ, ◌+◌, ◌<◌, ◌≤◌, ◌==◌, ◌⊎◌, [], ◌∷◌, ◌++◌, ℕ_discrete, ◌≡◌, refl, sym, ◌∙◌, ap, true, false,
  Option, some, List, arith, inl, inr, Bool-cases, if◌then◌else◌, length, leb, bytes_eq, Bytes,
}
use pmraccess.Outcome.{done}
use pmraccess.Wire.{Operation, max_request, max_async_size, u32}
use pmraccess.Rdma.Nic.{Nic}
use pmraccess.Store.{Meta, DbOps, DbLaws, HashMapOps, HashMapLaws}
use pmraccess.Uring.{UringOps, UringLaws}
use pmraccess.Bitset.Laws.{test}
use pmraccess.Bitset.Alloc.{Took}
use pmraccess.Pmr.Freeing.{waits}
use pmraccess.Pmr.Ownership.{waits_queued}
use pmraccess.Pmr.State.{Item, chunk_count}
use pmraccess.Pmr.Client.{Session, write_record, send_write}
use pmraccess.Pmr.Pending.{Entry}
use pmraccess.Pmr.Invariant.{Inv, contents}
use pmraccess.Pmr.Writes.{IsWrite, write_record_lem}
use pmraccess.Pmr.Alloc.{send_alloc_lem}
use pmraccess.Pmr.Sessions.{total_length, has_room}
use pmraccess.Pmr.Serving.{set, Desk, Hall, session, seat, desk_of, Alone}
use pmraccess.Pmr.Serving.Places.{Well, set_same, set_other}
use pmraccess.Pmr.Serving.Shifts.{Shift-Well}
use pmraccess.Pmr.Serving.Moves.{set_twice}
use pmraccess.Pmr.Serving.Steps.{write-Shift, alloc-Shift}

module _ {K S T : Type 0} (u : UringOps K) {entries : ℕ} (laws : UringLaws u entries) (nic : Nic)
    (db : DbOps S) (h : HashMapOps Meta T) (map_laws : HashMapLaws h)
    (view : S → Bytes → Option Bytes) (store_laws : DbLaws db view) where
  -- Of the chunks in use, each is that of the desk or waits to be freed.
  abbrev pub Spare : Hall K S T → ℕ → Type 0
  Spare x mine =
      (n : ℕ) → test x.server.bitmap n ≡ true → (n ≡ mine) ⊎ (0 < waits u laws n x.ring x.server)

  -- The desks after a call at one of them, which stays taken.
  abbrev pub Served : Hall K S T → (ℕ → ℕ) → ℕ → Session S T → Type 0
  Served x slot i y =
      let z : Hall K S T = seat i (some (desk_of y)) y.server x in
      (es' : ℕ → List Entry) × (slot' : ℕ → ℕ) × Well u laws h z es' slot'
      × (Spare x (slot i) → Spare z (slot' i))

  pub Spare-same :
      (x : Hall K S T) (y : Session S T) (i mine mine' : ℕ)
      → y.server.bitmap ≡ x.server.bitmap
      → y.server.queue ≡ x.server.queue
      → mine' ≡ mine
      → Spare x mine
      → Spare (seat i (some (desk_of y)) y.server x) mine'
  Spare-same x y i mine mine' bits queue same spare n used =
      rw (queue, same) (spare n (ap (λ b. test b n) (sym bits) ∙ used))

  Spare-more :
      (x : Hall K S T) (z : Session S T) (i mine slot' mine' : ℕ) (item : Item)
      → Took x.server.bitmap 0 slot' z.server.bitmap
      → z.server.queue ≡ x.server.queue ++ item ∷ []
      → item.chunk ≡ mine
      → mine' ≡ slot'
      → Spare x mine
      → Spare (seat i (some (desk_of z)) z.server x) mine'
  Spare-more x z i mine slot' mine' item took queue at same spare n used =
      elim (ℕ_discrete n slot') [
        | yes new ↦ inl (new ∙ sym same)
        | no ne ↦
            let more : waits u laws n x.ring z.server
                ≡ waits u laws n x.ring x.server + (if item.chunk == n then 1 else 0) =
              waits_queued u laws n x.ring x.server z.server item queue in
            elim (spare n (sym (took.bits n ∙ ground arith) ∙ used)) [
              | inl old ↦ inr (ground (arith, more, at, old))
              | inr waiting_n ↦ inr (omega (arith, more))
            ]
      ]

  write_in_room :
      (x : Hall K S T) (es : ℕ → List Entry) (slot : ℕ → ℕ) (i : ℕ) (d : Desk) (op : Operation)
      (key val : Bytes)
      → Well u laws h x es slot
      → x.desks i ≡ some d
      → IsWrite op
      → 16 + length key + length val ≤ max_request
      → Alone x i key
      → d.clerk.buf_head + 8 + length key + length val < max_async_size
      → (y : Session S T) × (write_record nic db h op key val (session d x.server) ≡ done y)
        × Served x slot i y
        × ((j : Bytes)
            → contents h view y.server j
              ≡ (if bytes_eq key j then some val else contents h view x.server j))
  write_in_room x es slot i d op key val w here is_write fits alone room =
      let (y, ran, inv, sees, wrote) =
        write_record_lem nic db h map_laws view (session d x.server) (es i) (slot i) op key val
          is_write (w.each i d here) fits room in
      let e : Entry = record { off = d.clerk.buf_head; key = key; val = val } in
      (
        y,
        ran,
        (
          _,
          _,
          Shift-Well u laws h x es slot i (some (desk_of y)) _ (slot i) y.server w (
              write-Shift u laws db h map_laws view store_laws x es slot i d y e w here alone inv
                wrote),
          Spare-same x y i (slot i) (set i (slot i) slot i) wrote.same_bits wrote.same_queue
              (set_same i (slot i) slot),
        ),
        sees,
      )

  -- While a chunk is free, or the clerk's has room, and no other clerk has the key in its batch, a
  -- write of a record that fits the client's buffer returns.
  pub write-Well :
      (x : Hall K S T) (es : ℕ → List Entry) (slot : ℕ → ℕ) (i : ℕ) (d : Desk) (op : Operation)
      (key val : Bytes)
      → Well u laws h x es slot
      → x.desks i ≡ some d
      → IsWrite op
      → 16 + length key + length val ≤ max_request
      → Alone x i key
      → (leb max_async_size (u32 (d.client.buf_head + total_length key val)) ≡ true
          → (free : ℕ) × (free < chunk_count) × (test x.server.bitmap free ≡ false))
      → (y : Session S T) × (send_write nic db h op key val (session d x.server) ≡ done y)
        × Served x slot i y
        × ((j : Bytes)
            → contents h view y.server j
              ≡ (if bytes_eq key j then some val else contents h view x.server j))
  unfolding send_write
  write-Well x es slot i d op key val w here is_write fits alone some_free =
      elim (Bool-cases (leb max_async_size (u32 (d.client.buf_head + total_length key val)))) [
        | inl full ↦
            let (free, lt, clear_bit) = some_free full in
            let inv : Inv h (session d x.server) (es i) (slot i) = w.each i d here in
            let (z, slot', ran, inv_z, empty, took, same, queue, left) =
              send_alloc_lem nic db h map_laws view store_laws (session d x.server) (es i) (slot i)
                free inv lt clear_bit in
            let x1 : Hall K S T = seat i (some (desk_of z)) z.server x in
            let (y, ran_write, (es', slots', w', spare'), sees) =
              write_in_room x1 _ _ i (desk_of z) op key val
                (Shift-Well u laws h x es slot i (some (desk_of z)) _ slot' z.server w (
                  alloc-Shift u laws db h map_laws view store_laws x es slot i slot'
                    d.clerk.buf_head d z _ w here inv_z took queue refl left))
                (set_same i (some (desk_of z)) x.desks) is_write fits
                (λ k d' ne there.
                  alone k d' ne (sym (set_other i k (some (desk_of z)) x.desks ne) ∙ there))
                (omega (arith, empty)) in
            (
              y,
              rw (full, ran) ran_write,
              (
                es',
                slots',
                rw (set_twice i (some (desk_of y)) (some (desk_of z)) x.desks) at w',
                λ spare. spare' (
                    Spare-more x z i (slot i) slot' (set i slot' slot i) _ took queue
                      (omega (arith, inv.chunk_at)) (set_same i slot' slot) spare),
              ),
              λ j.
                  sees j
                  ∙ ap (λ (o : Option Bytes). if bytes_eq key j then some val else o) (same j),
            )
        | inr room ↦
            let inv : Inv h (session d x.server) (es i) (slot i) = w.each i d here in
            let (y, ran_write, served, sees) =
              write_in_room x es slot i d op key val w here is_write fits alone (
                has_room (d.client.buf_head + total_length key val)
                  (d.clerk.buf_head + 8 + length key + length val) room
                  (omega (arith, inv.same_head)) (omega (arith, inv.room))) in
            (y, rw room ran_write, served, sees)
      ]
