-- ===== src/Pmr/Serving/Shifts.antt =====
-- What a change at one desk of frontend/pmr must leave to the others.
use pmraccess.Base.{
  ℕ, ◌+◌, ◌*◌, ◌<◌, ◌≤◌, ◌≡◌, sym, ◌∙◌, ap, true, Option, none, some, List, [], ◌∷◌, arith, inl,
  inr, ◌⊎◌, length, Bytes, Mem, ℕ_discrete, load-Agree,
}
use pmraccess.Wire.{max_async_size}
use pmraccess.Store.{Meta, HashMapOps}
use pmraccess.Uring.{UringOps, UringLaws}
use pmraccess.Bitset.Laws.{test, IsValid}
use pmraccess.Pmr.State.{Server, chunk_count}
use pmraccess.Pmr.Freeing.{waits, CanDrain}
use pmraccess.Pmr.Pending.{Entry, index_meta, pending, AllStored}
use pmraccess.Pmr.Invariant.{Inv, Elsewhere}
use pmraccess.Pmr.Serving.{Desk, Hall, session, set, seat}
use pmraccess.Pmr.Serving.Places.{Well, set_same, set_other, pending-Held}

-- Records stay stored in a region that has the same bytes there.
pub AllStored-same :
    (region region' : Mem) (chunk head : ℕ) (es : List Entry)
    → AllStored region chunk head es
    → ((n : ℕ) → chunk ≤ n → n < chunk + head → region' n ≡ region n)
    → AllStored region' chunk head es
AllStored-same region region' chunk head [] a k = tt
AllStored-same region region' chunk head (e ∷ es) a k = (
  record {
    inside = a.0.inside;
    key_fits = a.0.key_fits;
    bytes =
        load-Agree region' region (chunk + e.off + 8 + length e.key) (length e.val)
          (λ n p q. k n (omega arith) (omega (arith, a.0.inside)))
        ∙ a.0.bytes;
  },
  AllStored-same region region' chunk head es a.1 k,
)

module _ {K S T : Type 0} (u : UringOps K) {entries : ℕ} (laws : UringLaws u entries)
    (h : HashMapOps Meta T) where
  -- At desk `i` there is `o` now, with the pending records `es'` and the chunk `slot'`; the server
  -- is `s'`.
  pub record Shift (x : Hall K S T) (es : ℕ → List Entry) (slot : ℕ → ℕ) (i : ℕ) (o : Option Desk)
      (es' : List Entry) (slot' : ℕ) (s' : Server S T) : Type 0 where
    pub own : (d : Desk) → o ≡ some d → Inv h (session d s') es' slot'
    pub valid : IsValid s'.bitmap
    pub sized : s'.bitmap.size ≡ chunk_count
    pub grows : (n : ℕ) → test x.server.bitmap n ≡ true → test s'.bitmap n ≡ true
    pub unlike :
        (d : Desk) (k : ℕ) (d' : Desk)
        → o ≡ some d
        → ¬ (k ≡ i)
        → x.desks k ≡ some d'
        → ¬ (slot k ≡ slot')
    pub kept :
        (k : ℕ) (d : Desk) (j : Bytes) (e : Entry)
        → ¬ (k ≡ i)
        → x.desks k ≡ some d
        → pending (es k) j ≡ some e
        → h.find j s'.map ≡ h.find j x.server.map
    pub found :
        (j : Bytes) (m : Meta)
        → h.find j s'.map ≡ some m
        → ((d : Desk) × (e : Entry) × (o ≡ some d)
            × (pending es' j ≡ some e)
            × (m ≡ index_meta d.clerk.chunk_offset e))
          ⊎ (((d : Desk) → x.desks i ≡ some d → pending (es i) j ≡ none)
              × (h.find j x.server.map ≡ some m))
    pub outside :
        (k : ℕ) (d : Desk) (n : ℕ)
        → ¬ (k ≡ i)
        → x.desks k ≡ some d
        → max_async_size * slot k ≤ n
        → n < max_async_size * slot k + max_async_size
        → s'.region n ≡ x.server.region n
    pub drain : CanDrain u laws x.ring s'
    pub own_unqueued : (d : Desk) → o ≡ some d → waits u laws slot' x.ring s' ≡ 0
    pub unqueued :
        (k : ℕ) (d : Desk)
        → ¬ (k ≡ i)
        → x.desks k ≡ some d
        → waits u laws (slot k) x.ring s' ≡ waits u laws (slot k) x.ring x.server

  module _ (x : Hall K S T) (es : ℕ → List Entry) (slot : ℕ → ℕ) (i : ℕ) (o : Option Desk)
      (es' : List Entry) (slot' : ℕ) (s' : Server S T) (w : Well u laws h x es slot)
      (f : Shift x es slot i o es' slot' s') where
    -- What the index has now for a key that is not pending at `k` lies in another chunk.
    elsewhere :
        (k : ℕ) (d : Desk) (j : Bytes) (m : Meta)
        → ¬ (k ≡ i)
        → x.desks k ≡ some d
        → pending (es k) j ≡ none
        → h.find j s'.map ≡ some m
        → Elsewhere s'.bitmap (slot k) j m
    elsewhere k d j m ne there p q = elim (f.found j m q) [
      | inl (d', e, new, mine, at) ↦
          let (held, here) = pending-Held h d' s' es' slot' j e m (f.own d' new) mine at in
          (held, λ same. f.unlike d' k d new ne there (sym same ∙ here))
      | inr (gone, was) ↦
          let (held, other) = (w.each k d there).apart j m p was in
          (
            record {
              place = held.place;
              used = f.grows held.place held.used;
              from = held.from;
              to = held.to;
            },
            other,
          )
    ]

    other-Inv :
        (k : ℕ) (d : Desk) → ¬ (k ≡ i) → x.desks k ≡ some d → Inv h (session d s') (es k) (slot k)
    other-Inv k d ne there =
        let inv : Inv h (session d x.server) (es k) (slot k) = w.each k d there in
        record {
          flag = inv.flag;
          same_chunk = inv.same_chunk;
          same_head = inv.same_head;
          room = inv.room;
          chunk_at = inv.chunk_at;
          slot_in = inv.slot_in;
          slot_used = f.grows (slot k) inv.slot_used;
          bits = f.valid;
          bits_size = f.sized;
          keys = inv.keys;
          descriptors = inv.descriptors;
          index = λ j e p. f.kept k d j e ne there p ∙ inv.index j e p;
          apart = λ j m p q. elsewhere k d j m ne there p q;
          stored =
              AllStored-same x.server.region s'.region d.clerk.chunk_offset d.clerk.buf_head (es k)
                inv.stored
                (λ n p q.
                  f.outside k d n ne there (omega (arith, inv.chunk_at))
                    (omega (arith, inv.chunk_at, inv.room)));
        }

    abbrev desks' : ℕ → Option Desk
    desks' = set i o x.desks

    abbrev all_es : ℕ → List Entry
    all_es = set i es' es

    abbrev slots' : ℕ → ℕ
    slots' = set i slot' slot

    -- A desk after the change: the changed one, or one of the others.
    data Place (k : ℕ) (d : Desk) : Type 0 where
      here : k ≡ i → o ≡ some d → all_es k ≡ es' → slots' k ≡ slot' → Place k d
      there : ¬ (k ≡ i) → x.desks k ≡ some d → all_es k ≡ es k → slots' k ≡ slot k → Place k d

    place : (k : ℕ) (d : Desk) → desks' k ≡ some d → Place k d
    place k d p = elim (ℕ_discrete k i) [
      | yes same ↦
          here same (sym (set_same i o x.desks) ∙ ap desks' (sym same) ∙ p)
            (ap all_es same ∙ set_same i es' es) (ap slots' same ∙ set_same i slot' slot)
      | no ne ↦
          there ne (sym (set_other i k o x.desks ne) ∙ p) (set_other i k es' es ne)
            (set_other i k slot' slot ne)
    ]

    distinct' : (k l : ℕ) (d d' : Desk) → Place k d → Place l d' → slots' k ≡ slots' l → k ≡ l
    distinct' k l d d' (here a p _ q) (here b p' _ q') e = a ∙ sym b
    distinct' k l d d' (here a p _ q) (there b p' _ q') e =
        absurd (f.unlike d l d' p b p' (sym q' ∙ sym e ∙ q))
    distinct' k l d d' (there a p _ q) (here b p' _ q') e =
        absurd (f.unlike d' k d p' a p (sym q ∙ e ∙ q'))
    distinct' k l d d' (there a p _ q) (there b p' _ q') e =
        w.distinct k l d d' p p' (sym q ∙ e ∙ q')

    -- The desks stay as they should be.
    pub Shift-Well : Well u laws h (seat i o s' x) all_es slots'
    Shift-Well = record {
      each = λ k d p. elim (place k d p) [
        | here same mine e q ↦ rw (e, q) (f.own d mine)
        | there ne old e q ↦ rw (e, q) (other-Inv k d ne old)
      ];
      distinct = λ k l d d' p q e. distinct' k l d d' (place k d p) (place l d' q) e;
      cover = λ j m p. elim (f.found j m p) [
        | inl (d, e, new, mine, at) ↦ (
          i,
          d,
          e,
          set_same i o x.desks ∙ new,
          ap (λ l. pending l j) (set_same i es' es) ∙ mine,
          at,
        )
        | inr (gone, was) ↦
            let (k, d, e, old, mine, at) = w.cover j m was in
            elim (ℕ_discrete k i) [
              | yes same ↦ absurd (
                  none_some (
                    sym (gone d (ap x.desks (sym same) ∙ old))
                    ∙ ap (λ l. pending (es l) j) (sym same)
                    ∙ mine))
              | no ne ↦ (
                k,
                d,
                e,
                set_other i k o x.desks ne ∙ old,
                ap (λ l. pending l j) (set_other i k es' es ne) ∙ mine,
                at,
              )
            ]
      ];
      drain = f.drain;
      unqueued = λ k d p. elim (place k d p) [
        | here same mine e q ↦ rw q (f.own_unqueued d mine)
        | there ne old e q ↦ rw q (f.unqueued k d ne old ∙ w.unqueued k d old)
      ];
    }
      where
        none_some : {e : Entry} → none ≡ some e → ⊥
        none_some p = cc
