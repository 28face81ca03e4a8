-- ===== src/Pmr/Filling.antt =====
-- The inner loop of `UringRun` of frontend/pmr/pmr.cc: which writes it prepares, and where they go.
use mathlib.Core.List.{append_assoc, append-nil}
use pmraccess.Base.{
  ℕ, suc, ◌+◌, ◌<◌, ◌≤◌, ◌≡◌, ◌⊎◌, inl, inr, refl, sym, ap, ◌∙◌, List, [], ◌∷◌, ◌++◌, map, arith,
  length, length-append, Bool-cases,
}
use pmraccess.Outcome.{done}
use pmraccess.Uring.{Sqe, writes, UringOps, UringLaws, IOuring, full, write, prepared_write}
use pmraccess.Pmr.State.{Item}
use pmraccess.Pmr.Drain.{fill}

-- The writes of some elements, one behind the other from `at` on.
unfoldable pub place : ℕ → List Item → List Sqe
place at [] = []
place at (i ∷ is) =
    record { op = writes; buf = i.buf; size = i.size; offset = at; user_data = i.chunk }
    ∷ place (at + i.size) is

abbrev pub total : List Item → ℕ
total [] = 0
total (i ∷ is) = i.size + total is

pub length-place : (at : ℕ) (is : List Item) → length (place at is) ≡ length is
unfolding place
length-place at [] = refl
length-place at (i ∷ is) = ap suc (length-place (at + i.size) is)

pub map-place :
    (at : ℕ) (is : List Item) → map (λ e. e.user_data) (place at is) ≡ map (λ i. i.chunk) is
unfolding place
map-place at [] = refl
map-place at (i ∷ is) = ap (◌∷◌ i.chunk) (map-place (at + i.size) is)

module _ {K : Type 0} (u : UringOps K) {entries : ℕ} (laws : UringLaws u entries) where
  -- The count of what is in flight is right and within the depth that the ring was made with.
  pub record IsSound (r : IOuring K) : Type 0 where
    pub counted : r.inflight ≡ length (laws.prepared r.ring) + length (laws.submitted r.ring)
    pub room : r.inflight ≤ r.qd
    pub depth : r.qd ≤ entries

  -- What the loop has done when it stops: it prepared a prefix of the queue, in order, and stopped
  -- at the end of the queue or with a full ring.
  pub record Filled (items : List Item) (r r' : IOuring K) (rest : List Item) : Type 0 where
    pub taken : List Item
    pub split : items ≡ taken ++ rest
    pub sound : IsSound r'
    pub placed : laws.prepared r'.ring ≡ laws.prepared r.ring ++ place r.offset taken
    pub same : laws.submitted r'.ring ≡ laws.submitted r.ring
    pub moved : r'.offset ≡ r.offset + total taken
    pub same_depth : r'.qd ≡ r.qd
    pub stopped : (rest ≡ []) ⊎ (r'.qd ≤ r'.inflight)

  write_lem :
      (i : Item) (r : IOuring K)
      → IsSound r
      → r.inflight < r.qd
      → (r' : IOuring K) × (write u i.buf i.size i.chunk r ≡ done r')
        × IsSound r'
        × (laws.prepared r'.ring ≡ laws.prepared r.ring ++ place r.offset (i ∷ []))
        × (laws.submitted r'.ring ≡ laws.submitted r.ring)
        × (r'.offset ≡ r.offset + i.size)
        × (r'.qd ≡ r.qd)
  unfolding write prepared_write place
  write_lem i r s lt =
      let e : Sqe = record {
        op = writes;
        buf = i.buf;
        size = i.size;
        offset = r.offset;
        user_data = i.chunk;
      } in
      let (k, ran, prep, sub) = laws.prepare_lem e r.ring (omega (arith, s.counted, s.depth)) in
      (
        record r { ring = k; inflight = r.inflight + 1; offset = r.offset + i.size },
        rw ran,
        record {
          counted =
              rw (prep, sub)
                (omega (arith, s.counted, length-append (laws.prepared r.ring) (e ∷ [])));
          room = omega arith;
          depth = s.depth;
        },
        prep,
        sub,
        refl,
        refl,
      )

  -- From a ring whose count of writes in flight is right, at most the depth, with the depth at most
  -- the entries of the ring, the inner loop ends with the queue's front in the ring: no call of `io_uring_get_sqe` gives the
  -- null pointer, and the writes lie one behind the other in the file.
  pub fill_lem :
      (items : List Item) (r : IOuring K)
      → IsSound r
      → (r' : IOuring K) × (rest : List Item) × (fill u items r ≡ done (r', rest))
        × Filled items r r' rest
  unfolding fill place
  fill_lem [] r s = (
    r,
    [],
    refl,
    record {
      taken = [];
      split = refl;
      sound = s;
      placed = sym (append-nil (laws.prepared r.ring));
      same = refl;
      moved = omega arith;
      same_depth = refl;
      stopped = inl refl;
    },
  )
  fill_lem (i ∷ is) r s = elim (Bool-cases (full r)) [
    | inl stop ↦ (
      r,
      i ∷ is,
      rw (stop, fill),
      record {
        taken = [];
        split = refl;
        sound = s;
        placed = sym (append-nil (laws.prepared r.ring));
        same = refl;
        moved = omega arith;
        same_depth = refl;
        stopped = inr (ground arith);
      },
    )
    | inr go ↦
        let (r1, wrote, sound, prep, sub, off, qd) = write_lem i r s (ground arith) in
        let (r2, rest, ran, f) = fill_lem is r1 sound in
        (
          r2,
          rest,
          rw (go, fill, wrote, ran),
          record {
            taken = i ∷ f.taken;
            split = ap (◌∷◌ i) f.split;
            sound = f.sound;
            placed =
                f.placed
                ∙ rw (prep, off)
                    (append_assoc (laws.prepared r.ring) _ (place (r.offset + i.size) f.taken));
            same = f.same ∙ sub;
            moved = omega (arith, f.moved, off);
            same_depth = f.same_depth ∙ qd;
            stopped = f.stopped;
          },
        )
  ]
