-- ===== src/Pmr/Ownership.antt =====
-- Who owns the chunks of the messaging buffer of frontend/pmr: a clerk, the queue, or the ring.
use mathlib.Core.List.{map-append}
use pmraccess.Base.{
  ℕ, ◌+◌, ◌<◌, ◌≤◌, ◌≡◌, inl, inr, ap, ◌∙◌, true, List, [], ◌∷◌, ◌++◌, map, arith, ltb, lt→ltb,
  ◌==◌, if◌then◌else◌, occurrences, occurrences-append,
}
use pmraccess.Outcome.{done, ensured}
use pmraccess.Uring.{UringOps, UringLaws, IOuring}
use pmraccess.Bitset.{AtomicBitset, blindset}
use pmraccess.Bitset.Laws.{IsValid}
use pmraccess.Bitset.Alloc.{Took, blindset_lem}
use pmraccess.Pmr.State.{Item, Server, Clerk, chunk_count, no_chunk}
use pmraccess.Pmr.Owners.{bit_at}
use pmraccess.Pmr.Waiting.{in_queue}
use pmraccess.Pmr.Filling.{IsSound}
use pmraccess.Pmr.Freeing.{waits}
use pmraccess.Pmr.System.{System, slot_of}

abbrev pub slots : List Clerk → List ℕ
slots cs = map slot_of cs

-- A clerk among others.
pub occurrences_clerk :
    (j : ℕ) (before after : List Clerk) (c : Clerk)
    → occurrences j (slots (before ++ c ∷ after))
      ≡ occurrences j (slots (before ++ after)) + (if slot_of c == j then 1 else 0)
occurrences_clerk j before after c = omega (
  arith,
  ap (occurrences j) (map-append slot_of before (c ∷ after)),
  ap (occurrences j) (map-append slot_of before after),
  occurrences-append j (slots before) (slots (c ∷ after)),
  occurrences-append j (slots before) (slots after),
)

-- A clerk of the system has a chunk.
pub has_chunk : (c : Clerk) → slot_of c < chunk_count → ltb c.chunk_offset no_chunk ≡ true
has_chunk c h = lt→ltb c.chunk_offset no_chunk (omega arith)

module _ {K S T : Type 0} (u : UringOps K) {entries : ℕ} (laws : UringLaws u entries) where
  -- How many own the chunk `j`.
  abbrev pub owners : ℕ → System K S T → ℕ
  owners j x = occurrences j (slots x.clerks) + waits u laws j x.ring x.server

  -- A chunk has at most one owner, then its bit is set, and it lies in the region.
  pub record OwnedOnce (x : System K S T) : Type 0 where
    pub sound : IsSound u laws x.ring
    pub deep : 0 < x.ring.qd
    pub valid : IsValid x.server.bitmap
    pub sized : x.server.bitmap.size ≡ chunk_count
    pub once : (j : ℕ) → owners j x ≤ bit_at x.server.bitmap j
    pub inside : (j : ℕ) → 0 < owners j x → j < chunk_count

  -- An element behind the queue.
  pub waits_queued :
      (j : ℕ) (r : IOuring K) (s s' : Server S T) (i : Item)
      → s'.queue ≡ s.queue ++ i ∷ []
      → waits u laws j r s' ≡ waits u laws j r s + (if i.chunk == j then 1 else 0)
  waits_queued j r s s' i e =
      let more : occurrences j (in_queue s'.queue)
          ≡ occurrences j (in_queue s.queue) + (if i.chunk == j then 1 else 0) =
        ap (λ is. occurrences j (in_queue is)) e
        ∙ ap (occurrences j) (map-append (λ i. i.chunk) s.queue (i ∷ []))
        ∙ occurrences-append j (in_queue s.queue) (i.chunk ∷ [])
        ∙ omega arith in
      omega arith

pub took_lem :
    (b b' : AtomicBitset) (slot : ℕ) → IsValid b → blindset b ≡ done (slot, b') → Took b 0 slot b'
took_lem b b' slot v e =
    ensured (λ r. Took b 0 r.0 r.1)
      (elim (blindset_lem b v) [
        | inl (slot', b'', ran, took) ↦ rw ran took
        | inr (ran, all) ↦ rw ran tt
      ])
      e
