-- ===== src/Pmr/Serving/Drains.antt =====
-- A pass of `UringRun` of frontend/pmr between the calls of the clients.
use pmraccess.Base.{
  ℕ, ◌+◌, ◌≡◌, refl, sym, ◌∙◌, ap, true, false, Bool, none, some, List, [], arith, if◌then◌else◌,
  Bytes, ◌==◌, ℕ_discrete,
}
use pmraccess.Outcome.{done}
use pmraccess.Store.{Meta, HashMapOps}
use pmraccess.Uring.{UringOps, UringLaws, IOuring}
use pmraccess.Bitset.Laws.{test}
use pmraccess.Pmr.State.{Server}
use pmraccess.Pmr.Drain.{fill, finish, pass}
use pmraccess.Pmr.Freeing.{waits, waiting_count, Freed, pass_lem}
use pmraccess.Pmr.Draining.{Freed-CanDrain, nothing_waits}
use pmraccess.Pmr.Pending.{Entry, pending}
use pmraccess.Pmr.Invariant.{Inv, Elsewhere}
use pmraccess.Pmr.Serving.{Desk, Hall, session}
use pmraccess.Pmr.Serving.Places.{Well, pending-Held}

module _ {K S T : Type 0} (u : UringOps K) {entries : ℕ} (laws : UringLaws u entries)
    (h : HashMapOps Meta T) where
  -- The chunk that is freed is not that of a desk.
  stays_used :
      (x : Hall K S T) (es : ℕ → List Entry) (slot : ℕ → ℕ) (r' : IOuring K) (s' : Server S T)
      (c i : ℕ) (d : Desk)
      → Well u laws h x es slot
      → Freed u laws x.ring r' x.server s' c
      → x.desks i ≡ some d
      → test s'.bitmap (slot i) ≡ true
  stays_used x es slot r' s' c i d w f here =
      f.bits (slot i)
      ∙ still c (slot i) (waits u laws (slot i) x.ring x.server) (waits u laws (slot i) r' s')
          (test x.server.bitmap (slot i)) (f.gone (slot i)) (w.unqueued i d here)
          (w.each i d here).slot_used
    where
      still :
          (a b n m : ℕ) (was : Bool)
          → n ≡ m + (if a == b then 1 else 0)
          → n ≡ 0
          → was ≡ true
          → (if a == b then false else was) ≡ true
      still a b n m was e z q = ground arith

  Freed-Well :
      (x : Hall K S T) (es : ℕ → List Entry) (slot : ℕ → ℕ) (r' : IOuring K) (s' : Server S T)
      (c : ℕ)
      → Well u laws h x es slot
      → Freed u laws x.ring r' x.server s' c
      → Well u laws h (record x { ring = r'; server = s' }) es slot
  Freed-Well x es slot r' s' c w f = record {
    each = λ i d here.
        let inv : Inv h (session d x.server) (es i) (slot i) = w.each i d here in
        record {
          flag = inv.flag;
          same_chunk = inv.same_chunk;
          same_head = inv.same_head;
          room = inv.room;
          chunk_at = inv.chunk_at;
          slot_in = inv.slot_in;
          slot_used = stays_used x es slot r' s' c i d w f here;
          bits = f.valid;
          bits_size = f.sized;
          keys = inv.keys;
          descriptors = inv.descriptors;
          index = λ j e p. ap (h.find j) f.same_map ∙ inv.index j e p;
          apart = λ j m p q. away i d j m here p (sym (ap (h.find j) f.same_map) ∙ q);
          stored = rw f.same_region (inv.stored);
        };
    distinct = w.distinct;
    cover = λ j m q. w.cover j m (sym (ap (h.find j) f.same_map) ∙ q);
    drain = Freed-CanDrain u laws x.ring r' x.server s' c w.drain f;
    unqueued = λ i d here.
        less (waits u laws (slot i) x.ring x.server) (waits u laws (slot i) r' s') (c == slot i)
          (f.gone (slot i)) (w.unqueued i d here);
  }
    where
      less : (n m : ℕ) (b : Bool) → n ≡ m + (if b then 1 else 0) → n ≡ 0 → m ≡ 0
      less n m b e z = omega arith

      away :
          (i : ℕ) (d : Desk) (j : Bytes) (m : Meta)
          → x.desks i ≡ some d
          → pending (es i) j ≡ none
          → h.find j x.server.map ≡ some m
          → Elsewhere s'.bitmap (slot i) j m
      away i d j m here p q =
          let (k, d', e, there, mine, at) = w.cover j m q in
          let (held, place) =
            pending-Held h d' x.server (es k) (slot k) j e m (w.each k d' there) mine at in
          (
            record {
              place = held.place;
              used = rw place (stays_used x es slot r' s' c k d' w f there);
              from = held.from;
              to = held.to;
            },
            λ same. none_some (
                sym p
                ∙ ap (λ n. pending (es n) j) (w.distinct i k d d' here there (sym same ∙ place))
                ∙ mine),
          )
        where
          none_some : {e : Entry} → none ≡ some e → ⊥
          none_some p = cc

  -- A pass returns, no desk loses anything, and a reader sees what it saw.
  pub pass-Well :
      (x : Hall K S T) (es : ℕ → List Entry) (slot : ℕ → ℕ)
      → Well u laws h x es slot
      → (r' : IOuring K) × (s' : Server S T) × (pass u x.ring x.server ≡ done (r', s'))
        × Well u laws h (record x { ring = r'; server = s' }) es slot
        × (s'.db ≡ x.server.db)
        × (s'.map ≡ x.server.map)
        × (s'.region ≡ x.server.region)
  unfolding pass finish fill
  pass-Well x es slot w = elim (ℕ_discrete (waiting_count u laws x.ring x.server) 0) [
    | yes none_left ↦
        let (no_queue, no_flight, no_waits) =
          nothing_waits u laws x.ring x.server w.drain.sound none_left in
        let s' : Server S T = record x.server { queue = [] } in
        let same : x.server ≡ s' = ap (λ q. record x.server { queue = q }) no_queue in
        (x.ring, s', rw (no_queue, no_flight) refl, rw same at w, refl, refl, refl)
    | no some_left ↦
        let (r', s', c, ran, f) = pass_lem u laws x.ring x.server w.drain (omega arith) in
        (r', s', ran, Freed-Well x es slot r' s' c w f, f.same_db, f.same_map, f.same_region)
  ]
