-- ===== src/Pmr/Serving/Closes.antt =====
-- A client of frontend/pmr leaves its desk.
use pmraccess.Base.{
  ℕ, ◌+◌, ◌/◌, ◌≡◌, refl, sym, ◌∙◌, ap, true, false, Bool, Option, none, some, List, [], arith, inr,
  if◌then◌else◌, Bytes, ◌==◌, ltb,
}
use pmraccess.Wire.{max_async_size}
use pmraccess.Store.{Meta, DbOps, DbLaws, HashMapOps, HashMapLaws}
use pmraccess.Uring.{UringOps, UringLaws}
use pmraccess.Pmr.State.{Item}
use pmraccess.Pmr.Clerk.{flush, copy_chunk}
use pmraccess.Rdma.Nic.{Nic}
use pmraccess.Pmr.Closing.{closing, none_stored}
use pmraccess.Pmr.Freeing.{waits}
use pmraccess.Pmr.Ownership.{waits_queued}
use pmraccess.Pmr.Pending.{Entry}
use pmraccess.Pmr.Invariant.{Inv}
use pmraccess.Pmr.Flush.{found-flush, find-flush, unless_pending}
use pmraccess.Pmr.Serving.{Desk, Hall, session}
use pmraccess.Pmr.Serving.Places.{Well, one_desk}
use pmraccess.Pmr.Serving.Shifts.{Shift}
use pmraccess.Pmr.Serving.Moves.{CanDrain-more}

module _ {K S T : Type 0} (u : UringOps K) {entries : ℕ} (laws : UringLaws u entries) (nic : Nic)
    (db : DbOps S) (h : HashMapOps Meta T) (map_laws : HashMapLaws h)
    (view : S → Bytes → Option Bytes) (store_laws : DbLaws db view) where
  none_desk : {d : Desk} → none ≡ some d → ⊥
  none_desk p = cc

  flush-Shift :
      (x : Hall K S T) (es : ℕ → List Entry) (slot : ℕ → ℕ) (i n : ℕ) (d : Desk)
      → Well u laws h x es slot
      → x.desks i ≡ some d
      → Shift u laws h x es slot i none [] (slot i) (flush db h n d.clerk x.server)
  unfolding flush
  flush-Shift x es slot i n d w here =
      let inv : Inv h (session d x.server) (es i) (slot i) = w.each i d here in
      let item : Item = record {
        buf = copy_chunk x.server.region d.clerk.chunk_offset;
        size = d.clerk.buf_head;
        chunk = d.clerk.chunk_offset / max_async_size;
      } in
      let mine : item.chunk ≡ slot i = omega (arith, inv.chunk_at) in
      let more : (c : ℕ)
          → waits u laws c x.ring (flush db h n d.clerk x.server)
            ≡ waits u laws c x.ring x.server + (if slot i == c then 1 else 0) =
        λ c.
          waits_queued u laws c x.ring x.server (flush db h n d.clerk x.server) item refl
          ∙ ap (λ (q : ℕ). waits u laws c x.ring x.server + (if q == c then 1 else 0)) mine in
      record {
        own = λ d' p. absurd (none_desk p);
        valid = inv.bits;
        sized = inv.bits_size;
        grows = λ c q. q;
        unlike = λ d' k d'' p ne there. absurd (none_desk p);
        kept = λ k d' j e ne there p.
            find-flush db h map_laws view store_laws d.clerk x.server (es i) n j inv.keys
            ∙ ap (λ o. unless_pending o (h.find j x.server.map))
                (one_desk u laws h x es slot i k d d' j e w here there ne p);
        found = λ j m q.
            let (gone, was) =
              found-flush db h map_laws view store_laws d.clerk x.server (es i) n j m inv.keys q in
            inr (λ d' here'. gone, was);
        outside = λ k d' c ne there p q. refl;
        drain =
            CanDrain-more u laws x.ring x.server (flush db h n d.clerk x.server) (slot i) w.drain
              inv.bits inv.bits_size (λ c q. q) inv.slot_in inv.slot_used (w.unqueued i d here)
              more;
        own_unqueued = λ d' p. absurd (none_desk p);
        unqueued = λ k d' ne there.
            more (slot k)
            ∙ other (waits u laws (slot k) x.ring x.server) (slot i) (slot k)
                (λ same. ne (w.distinct k i d' d there here (sym same)));
      }
    where
      other : (n a b : ℕ) → ¬ (a ≡ b) → n + (if a == b then 1 else 0) ≡ n
      other n a b ne = ground arith

  leave-Shift :
      (x : Hall K S T) (es : ℕ → List Entry) (slot : ℕ → ℕ) (i : ℕ) (d : Desk)
      → Well u laws h x es slot
      → x.desks i ≡ some d
      → d.clerk.buf_head ≡ 0
      → Shift u laws h x es slot i none [] (slot i) x.server
  leave-Shift x es slot i d w here empty =
      let inv : Inv h (session d x.server) (es i) (slot i) = w.each i d here in
      record {
        own = λ d' p. absurd (none_desk p);
        valid = inv.bits;
        sized = inv.bits_size;
        grows = λ c q. q;
        unlike = λ d' k d'' p ne there. absurd (none_desk p);
        kept = λ k d' j e ne there p. refl;
        found = λ j m q. inr (
          λ d' here'.
              none_stored nic db h map_laws view store_laws x.server.region d.clerk.chunk_offset
                (es i) j (rw empty at inv.stored),
          q,
        );
        outside = λ k d' c ne there p q. refl;
        drain = w.drain;
        own_unqueued = λ d' p. absurd (none_desk p);
        unqueued = λ k d' ne there. refl;
      }

  -- What `SendClose` leaves, with and without a record in the chunk.
  pub close-Shift :
      (x : Hall K S T) (es : ℕ → List Entry) (slot : ℕ → ℕ) (i : ℕ) (d : Desk) (used : Bool)
      → Well u laws h x es slot
      → x.desks i ≡ some d
      → ltb 0 d.clerk.buf_head ≡ used
      → Shift u laws h x es slot i none [] (slot i) (closing nic db h used d.clerk x.server)
  close-Shift x es slot i d true w here e = flush-Shift x es slot i max_async_size d w here
  close-Shift x es slot i d false w here e = leave-Shift x es slot i d w here (ground arith)
