-- ===== src/Pmr/Serving/Places.antt =====
-- The desks of frontend/pmr on one server: each a session, no two with a chunk in common, and the index
-- holds the records that are pending at one of them.
use pmraccess.Base.{
  ℕ, ◌+◌, ◌%◌, ◌^◌, ◌≡◌, refl, sym, ◌∙◌, ap, none, some, List, arith, inl, inr, Option-cases,
  length, bytes_eq→eq, Bytes,
}
use pmraccess.Store.{Meta, mem_meta, HashMapOps}
use pmraccess.Uring.{UringOps, UringLaws}
use pmraccess.Pmr.Freeing.{waits, CanDrain}
use pmraccess.Pmr.Pending.{Entry, index_meta, pending, pending_key, pending-IsStored, IsStored}
use pmraccess.Pmr.Invariant.{Inv, Held}
use pmraccess.Pmr.Serving.{Desk, Hall, session, set}

pub set_same {ℓ} : {A : Type ℓ} (i : ℕ) (a : A) (f : ℕ → A) → set i a f i ≡ a
unfolding set
set_same i a f = ground arith

pub set_other {ℓ} : {A : Type ℓ} (i k : ℕ) (a : A) (f : ℕ → A) → ¬ (k ≡ i) → set i a f k ≡ f k
unfolding set
set_other i k a f ne = ground arith

module _ {K S T : Type 0} (u : UringOps K) {entries : ℕ} (laws : UringLaws u entries)
    (h : HashMapOps Meta T) where
  -- `es` has the pending records of a desk, `slot` its chunk.
  pub record Well (x : Hall K S T) (es : ℕ → List Entry) (slot : ℕ → ℕ) : Type 0 where
    pub each : (i : ℕ) (d : Desk) → x.desks i ≡ some d → Inv h (session d x.server) (es i) (slot i)
    pub distinct :
        (i k : ℕ) (d d' : Desk) → x.desks i ≡ some d → x.desks k ≡ some d' → slot i ≡ slot k → i ≡ k
    pub cover :
        (j : Bytes) (m : Meta)
        → h.find j x.server.map ≡ some m
        → (i : ℕ) × (d : Desk) × (e : Entry) × (x.desks i ≡ some d)
          × (pending (es i) j ≡ some e)
          × (m ≡ index_meta d.clerk.chunk_offset e)
    pub drain : CanDrain u laws x.ring x.server
    pub unqueued :
        (i : ℕ) (d : Desk) → x.desks i ≡ some d → waits u laws (slot i) x.ring x.server ≡ 0

-- Where the value of a pending record lies.
pub pending-Held :
    {S T : Type 0} (h : HashMapOps Meta T) (d : Desk) (s : _) (es : List Entry) (slot : ℕ)
    (j : Bytes) (e : Entry) (m : Meta)
    → Inv {S = S} h (session d s) es slot
    → pending es j ≡ some e
    → m ≡ index_meta d.clerk.chunk_offset e
    → (w : Held s.bitmap j m) × (w.place ≡ slot)
unfolding mem_meta
pending-Held h d s es slot j e m inv p at =
    let st : IsStored s.region d.clerk.chunk_offset d.clerk.buf_head e =
      pending-IsStored s.region d.clerk.chunk_offset d.clerk.buf_head es j e inv.stored p in
    let key : length j ≡ length e.key =
      ap length (sym (bytes_eq→eq e.key j (pending_key es j e p))) in
    let addr : m.addr ≡ d.clerk.chunk_offset + e.off + 8 = ap (λ n. n.addr) at in
    let size : m.value_size ≡ length e.val % 2 ^ 32 = ap (λ n. n.value_size) at in
    (
      record {
        place = slot;
        used = inv.slot_used;
        from = omega (arith, inv.chunk_at, addr);
        to = omega (arith, inv.chunk_at, inv.room, st.inside, key, addr, size);
      },
      refl,
    )

module _ {K S T : Type 0} (u : UringOps K) {entries : ℕ} (laws : UringLaws u entries)
    (h : HashMapOps Meta T) where
  -- Two desks have no key in common among their pending records.
  pub one_desk :
      (x : Hall K S T) (es : ℕ → List Entry) (slot : ℕ → ℕ) (i k : ℕ) (d d' : Desk) (j : Bytes)
      (e : Entry)
      → Well u laws h x es slot
      → x.desks i ≡ some d
      → x.desks k ≡ some d'
      → ¬ (k ≡ i)
      → pending (es k) j ≡ some e
      → pending (es i) j ≡ none
  unfolding mem_meta
  one_desk x es slot i k d d' j e w here there ne p = elim (Option-cases (pending (es i) j)) [
    | inl q ↦ q
    | inr (e', q) ↦
        let inv : Inv h (session d x.server) (es i) (slot i) = w.each i d here in
        let inv' : Inv h (session d' x.server) (es k) (slot k) = w.each k d' there in
        let st : IsStored x.server.region d.clerk.chunk_offset d.clerk.buf_head e' =
          pending-IsStored x.server.region d.clerk.chunk_offset d.clerk.buf_head (es i) j e'
            inv.stored q in
        let st' : IsStored x.server.region d'.clerk.chunk_offset d'.clerk.buf_head e =
          pending-IsStored x.server.region d'.clerk.chunk_offset d'.clerk.buf_head (es k) j e
            inv'.stored p in
        let same : d.clerk.chunk_offset + e'.off ≡ d'.clerk.chunk_offset + e.off =
          same_place _ _ _ _ (sym (inv.index j e' q) ∙ inv'.index j e p) in
        absurd (
          ne (
            w.distinct k i d' d there here (
              omega
                (arith, inv.chunk_at, inv'.chunk_at, inv.room, inv'.room, st.inside, st'.inside))))
  ]
    where
      same_place :
          (a b : ℕ) (f g : Entry)
          → some (index_meta a f) ≡ some (index_meta b g)
          → a + f.off ≡ b + g.off
      same_place a b f g q =
          let addr : a + f.off + 8 ≡ b + g.off + 8 =
            ap (λ o. elim o [ some m ↦ m.addr | none ↦ 0 ]) q in
          omega arith
