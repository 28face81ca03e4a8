-- ===== src/Pmr/Serving/Steps.antt =====
-- The calls that take a chunk, write to it, or give it up, among the desks of frontend/pmr.
use pmraccess.Base.{
  ℕ, ◌+◌, ◌*◌, ◌<◌, ◌≤◌, ◌≡◌, refl, sym, ◌∙◌, ap, true, false, Bool, Option, none, some, List, [],
  ◌∷◌, ◌++◌, arith, inr, ◌⊎◌, if◌then◌else◌, bytes_eq, Bytes, ◌==◌,
}
use pmraccess.Wire.{max_async_size}
use pmraccess.Store.{Meta, DbOps, DbLaws, HashMapOps, HashMapLaws}
use pmraccess.Uring.{UringOps, UringLaws}
use pmraccess.Bitset.Laws.{test}
use pmraccess.Bitset.Alloc.{Took}
use pmraccess.Pmr.State.{Item}
use pmraccess.Pmr.Clerk.{flush}
use pmraccess.Pmr.Client.{Session}
use pmraccess.Pmr.Freeing.{waits}
use pmraccess.Pmr.Ownership.{waits_queued}
use pmraccess.Pmr.Pending.{Entry, pending, pending_append}
use pmraccess.Pmr.Invariant.{Inv}
use pmraccess.Pmr.Flush.{found-flush, find-flush, unless_pending}
use pmraccess.Pmr.Wrote.{Wrote}
use pmraccess.Pmr.Serving.{Desk, Hall, session, desk_of, is_batched}
use pmraccess.Pmr.Serving.Places.{Well, one_desk}
use pmraccess.Pmr.Serving.Shifts.{Shift}
use pmraccess.Pmr.Serving.Moves.{
  of_some, found_own, is_batched-pending, Took-grows, CanDrain-same, CanDrain-more,
}

module _ {K S T : Type 0} (u : UringOps K) {entries : ℕ} (laws : UringLaws u entries) (db : DbOps S)
    (h : HashMapOps Meta T) (map_laws : HashMapLaws h) (view : S → Bytes → Option Bytes)
    (store_laws : DbLaws db view) where
  -- A record behind the others, with a key that no other clerk has in its batch.
  pub write-Shift :
      (x : Hall K S T) (es : ℕ → List Entry) (slot : ℕ → ℕ) (i : ℕ) (d : Desk) (y : Session S T)
      (e : Entry)
      → Well u laws h x es slot
      → x.desks i ≡ some d
      → ((k : ℕ) (d' : Desk)
          → ¬ (k ≡ i)
          → x.desks k ≡ some d'
          → is_batched e.key d'.clerk.key_batch ≡ false)
      → Inv h y (es i ++ e ∷ []) (slot i)
      → Wrote h (session d x.server) y (slot i) e.key
      → Shift u laws h x es slot i (some (desk_of y)) (es i ++ e ∷ []) (slot i) y.server
  write-Shift x es slot i d y e w here alone inv wrote = record {
    own = λ d' p.
        of_some (λ o. Inv h (session o y.server) (es i ++ e ∷ []) (slot i)) (desk_of y) d' p inv;
    valid = inv.bits;
    sized = inv.bits_size;
    grows = λ n q. ap (λ b. test b n) wrote.same_bits ∙ q;
    unlike = λ d' k d'' p ne there same. ne (w.distinct k i d'' d there here same);
    kept = λ k d' j e' ne there p. wrote.others j (
        is_batched-pending (es k) e.key j e'
          (rw ((w.each k d' there).keys) at (alone k d' ne there)) p);
    found = λ j m q.
        found_own u laws h x es i y (es i ++ e ∷ []) (slot i) j m inv
          (λ p.
            let (differs, mine) =
              not_last (bytes_eq e.key j) refl (pending es_i j)
                (sym (pending_append es_i e j) ∙ p) in
            (λ d' here'. mine, sym (wrote.others j differs) ∙ q))
          q;
    outside = λ k d' n ne there p q.
        wrote.outside n (beside (slot k) n (λ same. ne (w.distinct k i d' d there here same)) p q);
    drain =
        CanDrain-same u laws x.ring x.server y.server w.drain inv.bits inv.bits_size
          (λ n q. ap (λ b. test b n) wrote.same_bits ∙ q) wrote.same_queue;
    own_unqueued = λ d' p. rw wrote.same_queue (w.unqueued i d here);
    unqueued = λ k d' ne there. rw wrote.same_queue refl;
  }
    where
      es_i : List Entry
      es_i = es i

      not_last :
          (b : Bool)
          → b ≡ b
          → (o : Option Entry) → (if b then some e else o) ≡ none
          → (b ≡ false) × (o ≡ none)
      not_last true r o p = cc
      not_last false r o p = (refl, p)

      beside :
          (k n : ℕ)
          → ¬ (k ≡ slot i)
          → max_async_size * k ≤ n
          → n < max_async_size * k + max_async_size
          → (n < max_async_size * slot i) ⊎ (max_async_size * slot i + max_async_size ≤ n)
      beside k n ne p q = ground arith

  -- A chunk that was free is not that of a desk.
  unlike_free :
      (x : Hall K S T) (es : ℕ → List Entry) (slot : ℕ → ℕ) (k free : ℕ) (d : Desk)
      → Well u laws h x es slot
      → x.desks k ≡ some d
      → test x.server.bitmap free ≡ false
      → ¬ (slot k ≡ free)
  unlike_free x es slot k free d w there f same =
      true_false (sym (w.each k d there).slot_used ∙ ap (test x.server.bitmap) same ∙ f)
    where
      true_false : true ≡ false → ⊥
      true_false p = cc

  -- The batch of a desk goes to the store, and its chunk to the queue; it has another chunk.
  pub alloc-Shift :
      (x : Hall K S T) (es : ℕ → List Entry) (slot : ℕ → ℕ) (i slot' n : ℕ) (d : Desk)
      (y : Session S T) (item : Item)
      → Well u laws h x es slot
      → x.desks i ≡ some d
      → Inv h y [] slot'
      → Took x.server.bitmap 0 slot' y.server.bitmap
      → y.server.queue ≡ x.server.queue ++ item ∷ []
      → item.chunk ≡ slot i
      → y.server ≡ record (flush db h n d.clerk x.server) { bitmap = y.server.bitmap }
      → Shift u laws h x es slot i (some (desk_of y)) [] slot' y.server
  unfolding flush
  alloc-Shift x es slot i slot' n d y item w here inv took queue mine left =
      let inv_i : Inv h (session d x.server) (es i) (slot i) = w.each i d here in
      let more : (c : ℕ)
          → waits u laws c x.ring y.server
            ≡ waits u laws c x.ring x.server + (if slot i == c then 1 else 0) =
        λ c.
          waits_queued u laws c x.ring x.server y.server item queue
          ∙ ap (λ (q : ℕ). waits u laws c x.ring x.server + (if q == c then 1 else 0)) mine in
      record {
        own = λ d' p. of_some (λ o. Inv h (session o y.server) [] slot') (desk_of y) d' p inv;
        valid = inv.bits;
        sized = inv.bits_size;
        grows = λ c q. Took-grows c took q;
        unlike = λ d' k d'' p ne there. unlike_free x es slot k slot' d'' w there took.was_free;
        kept = λ k d' j e ne there p.
            ap (λ s. h.find j s.map) left
            ∙ find-flush db h map_laws view store_laws d.clerk x.server (es i) n j inv_i.keys
            ∙ ap (λ o. unless_pending o (h.find j x.server.map))
                (one_desk u laws h x es slot i k d d' j e w here there ne p);
        found = λ j m q.
            let (gone, was) =
              found-flush db h map_laws view store_laws d.clerk x.server (es i) n j m inv_i.keys
                (sym (ap (λ s. h.find j s.map) left) ∙ q) in
            inr (λ d' here'. gone, was);
        outside = λ k d' c ne there p q. ap (λ s. s.region c) left;
        drain =
            CanDrain-more u laws x.ring x.server y.server (slot i) w.drain inv.bits inv.bits_size
              (λ c q. Took-grows c took q) inv_i.slot_in inv_i.slot_used (w.unqueued i d here) more;
        own_unqueued = λ d' p.
            none_yet (waits u laws slot' x.ring x.server) (test x.server.bitmap slot')
              (slot i == slot') (waits u laws slot' x.ring y.server) (w.drain.once slot')
              took.was_free (more slot')
              (λ q. unlike_free x es slot i slot' d w here took.was_free (ground arith));
        unqueued = λ k d' ne there.
            more (slot k)
            ∙ other (waits u laws (slot k) x.ring x.server) (slot i) (slot k)
                (λ same. ne (w.distinct k i d' d there here (sym same)));
      }
    where
      other : (n a b : ℕ) → ¬ (a ≡ b) → n + (if a == b then 1 else 0) ≡ n
      other n a b ne = ground arith

      none_yet :
          (a : ℕ) (b c : Bool) (a' : ℕ)
          → a ≤ (if b then 1 else 0)
          → b ≡ false
          → a' ≡ a + (if c then 1 else 0)
          → ¬ (c ≡ true)
          → a' ≡ 0
      none_yet a true c a' le p e ne = cc
      none_yet a false true a' le p e ne = absurd (ne refl)
      none_yet a false false a' le p e ne = omega (arith, e)

  -- A new desk with a chunk that was free.
  pub connect-Shift :
      (x : Hall K S T) (es : ℕ → List Entry) (slot : ℕ → ℕ) (i slot' : ℕ) (y : Session S T)
      → Well u laws h x es slot
      → x.desks i ≡ none
      → Inv h y [] slot'
      → Took x.server.bitmap 0 slot' y.server.bitmap
      → y.server ≡ record (x.server) { bitmap = y.server.bitmap }
      → Shift u laws h x es slot i (some (desk_of y)) [] slot' y.server
  connect-Shift x es slot i slot' y w vacant inv took left = record {
    own = λ d' p. of_some (λ o. Inv h (session o y.server) [] slot') (desk_of y) d' p inv;
    valid = inv.bits;
    sized = inv.bits_size;
    grows = λ c q. Took-grows c took q;
    unlike = λ d' k d'' p ne there. unlike_free x es slot k slot' d'' w there took.was_free;
    kept = λ k d' j e ne there p. ap (λ s. h.find j s.map) left;
    found = λ j m q. inr (
      λ d' here. absurd (none_some (sym vacant ∙ here)),
      sym (ap (λ s. h.find j s.map) left) ∙ q,
    );
    outside = λ k d' c ne there p q. ap (λ s. s.region c) left;
    drain =
        CanDrain-same u laws x.ring x.server y.server w.drain inv.bits inv.bits_size
          (λ c q. Took-grows c took q) (ap (λ s. s.queue) left);
    own_unqueued = λ d' p. rw left (
        none_waits (waits u laws slot' x.ring x.server) (test x.server.bitmap slot')
          (w.drain.once slot') took.was_free);
    unqueued = λ k d' ne there. rw left refl;
  }
    where
      none_some : {d : Desk} → none ≡ some d → ⊥
      none_some p = cc

      none_waits : (a : ℕ) (b : Bool) → a ≤ (if b then 1 else 0) → b ≡ false → a ≡ 0
      none_waits a true le p = cc
      none_waits a false le p = omega arith
