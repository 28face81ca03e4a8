-- ===== src/Bench/Served.antt =====
-- What the only client of a frontend/pmr server keeps of what benchmark.cc expects of a client.
use pmraccess.Base.{
  ℕ, zero, suc, ◌+◌, ◌<◌, ◌≤◌, ◌≡◌, refl, sym, ◌∙◌, ap, Bool, true, false, Option, some, List,
  arith, ◌==◌, ◌⊎◌, inl, inr, ltb, if◌then◌else◌, Bool-cases, length, bytes_eq, Bytes, ℕ_discrete,
}
use pmraccess.Outcome.{done, ensured}
use pmraccess.Wire.{Operation, put, update, max_request}
use pmraccess.Rdma.Nic.{Nic}
use pmraccess.Store.{Meta, DbOps, DbLaws, HashMapOps, HashMapLaws}
use pmraccess.Uring.{UringOps, UringLaws, IOuring}
use pmraccess.Bitset.Laws.{test}
use pmraccess.Pmr.State.{Server, chunk_count}
use pmraccess.Pmr.Client.{send_get}
use pmraccess.Pmr.Drain.{passes}
use pmraccess.Pmr.Freeing.{waits, waiting_count}
use pmraccess.Pmr.Draining.{passes-drain}
use pmraccess.Pmr.Pending.{Entry}
use pmraccess.Pmr.Invariant.{contents}
use pmraccess.Pmr.Writes.{IsWrite}
use pmraccess.Pmr.Reads.{send_get_value}
use pmraccess.Pmr.Serving.{Desk, Hall, session, desk_of, seat, set}
use pmraccess.Pmr.Serving.Places.{Well, set_same, set_other}
use pmraccess.Pmr.Serving.Shifts.{Shift-Well}
use pmraccess.Pmr.Serving.Moves.{quiet-Shift}
use pmraccess.Pmr.Serving.Drains.{pass-Well}
use pmraccess.Pmr.Serving.Writes.{Spare, Spare-same, write-Well}
use pmraccess.Bench.Clients.{ClientLaws}
use pmraccess.Bench.Messaging.{settle, call_at, write_at, write_at_returns, pmr_client}

module _ {K S T : Type 0} (u : UringOps K) {entries : ℕ} (laws : UringLaws u entries) (nic : Nic)
    (db : DbOps S) (h : HashMapOps Meta T) (map_laws : HashMapLaws h)
    (view : S → Bytes → Option Bytes) (store_laws : DbLaws db view) (i : ℕ) where
  abbrev OnlyDesk : Hall K S T → Type 0
  OnlyDesk x = (k : ℕ) (d : Desk) → x.desks k ≡ some d → k ≡ i

  -- The client is connected, alone, and every chunk in use is its own or waits to be freed.
  pub record IsServed (x : Hall K S T) : Type 0 where
    pub es : ℕ → List Entry
    pub slot : ℕ → ℕ
    pub desk : Desk
    pub here : x.desks i ≡ some desk
    pub only : OnlyDesk x
    pub well : Well u laws h x es slot
    pub spare : Spare u laws nic db h map_laws view store_laws x (slot i)

  passes-Well :
      (n : ℕ) (x : Hall K S T) (es : ℕ → List Entry) (slot : ℕ → ℕ)
      → Well u laws h x es slot
      → (r : IOuring K) × (s : Server S T) × (passes u n x.ring x.server ≡ done (r, s))
        × Well u laws h (record x { ring = r; server = s }) es slot
  unfolding passes
  passes-Well zero x es slot w = (x.ring, x.server, refl, w)
  passes-Well (suc n) x es slot w =
      let (r1, s1, ran1, w1, same_db, same_map, same_region) = pass-Well u laws h x es slot w in
      let (r2, s2, ran2, w2) = passes-Well n (record x { ring = r1; server = s1 }) es slot w1 in
      (r2, s2, rw (ran1, ran2) refl, w2)

  -- Then nothing waits, so that a chunk is free.
  settle_lem :
      (x : Hall K S T) (v : IsServed x)
      → (z : Hall K S T) × (settle u nic db h i x ≡ done z)
        × Well u laws h z (v.es) (v.slot)
        × (z.desks ≡ x.desks)
        × ((n : ℕ) → test z.server.bitmap n ≡ true → n ≡ v.slot i)
        × ((j : Bytes) → contents h view z.server j ≡ contents h view x.server j)
  unfolding settle
  settle_lem x v =
      let (r, s, ran, d) = passes-drain u laws x.ring x.server v.well.drain in
      let (r', s', ran', w') =
        passes-Well (waiting_count u laws x.ring x.server) x v.es v.slot v.well in
      (
        record x { ring = r; server = s },
        rw ran refl,
        ensured (λ p. Well u laws h (record x { ring = p.0; server = p.1 }) v.es v.slot)
            (rw ran' w') ran,
        refl,
        λ n used.
            own n (waits u laws n x.ring x.server) (test x.server.bitmap n) (v.slot i)
              (sym (d.bits n) ∙ used) (v.spare n),
        λ j. rw (d.same_db, d.same_map, d.same_region) refl,
      )
    where
      own :
          (n w : ℕ) (was : Bool) (mine : ℕ)
          → (if ltb 0 w then false else was) ≡ true
          → (was ≡ true → (n ≡ mine) ⊎ (0 < w))
          → n ≡ mine
      own n w was mine e k = ground (arith, e, k)

  -- A chunk that is not the one in use.
  abbrev other_chunk : ℕ → ℕ
  other_chunk mine = if mine == 0 then 1 else 0

  other_free :
      (z : Hall K S T) (mine : ℕ)
      → ((n : ℕ) → test z.server.bitmap n ≡ true → n ≡ mine)
      → test z.server.bitmap (other_chunk mine) ≡ false
  other_free z mine k = elim (Bool-cases (test z.server.bitmap (other_chunk mine))) [
    | inr free ↦ free
    | inl used ↦ absurd (differs mine (k (other_chunk mine) used))
  ]
    where
      differs : (m : ℕ) → ◌≡◌ {A = ℕ} (if m == 0 then 1 else 0) m → ⊥
      differs m e = ground arith

  write_at_lem :
      (op : Operation) (key val : Bytes) (x : Hall K S T)
      → IsWrite op
      → IsServed x
      → 16 + length key + length val ≤ 4096
      → (y : Hall K S T) × (write_at u nic db h i op key val x ≡ done y)
        × IsServed y
        × ((j : Bytes)
            → contents h view y.server j
              ≡ (if bytes_eq key j then some val else contents h view x.server j))
  write_at_lem op key val x is_write v fits =
      let (z, ran, w, desks, used, same) = settle_lem x v in
      let here : z.desks i ≡ some v.desk = ap (λ f. f i) desks ∙ v.here in
      let (y, ran_write, (es', slot', w', spare'), sees) =
        write-Well u laws nic db h map_laws view store_laws z v.es v.slot i v.desk op key val w here
          is_write fits
          (λ k d ne there. absurd (ne (v.only k d (sym (ap (λ f. f k) desks) ∙ there))))
          (λ full. (other_chunk (v.slot i), small (v.slot i), other_free z (v.slot i) used)) in
      (
        seat i (some (desk_of y)) y.server z,
        write_at_returns u nic db h i op key val x z v.desk y ran here ran_write,
        record {
          es = es';
          slot = slot';
          desk = desk_of y;
          here = set_same i (some (desk_of y)) z.desks;
          only = λ k d there. elim (ℕ_discrete k i) [
            | yes here' ↦ here'
            | no ne ↦ v.only k d (
                sym (ap (λ f. f k) desks)
                ∙ sym (set_other i k (some (desk_of y)) z.desks ne)
                ∙ there)
          ];
          well = w';
          spare = spare' (λ n in_use. inl (used n in_use));
        },
        λ j. sees j ∙ ap (λ (o : Option Bytes). if bytes_eq key j then some val else o) (same j),
      )
    where
      small : (m : ℕ) → (if m == 0 then 1 else 0) < chunk_count
      small m = ground arith

  get_at_lem :
      (key val : Bytes) (x : Hall K S T)
      → IsServed x
      → 16 + length key ≤ max_request
      → contents h view x.server key ≡ some val
      → length val ≤ 120
      → (y : Hall K S T) × (call_at u nic db h i (send_get nic db h key) x ≡ done (some val, y))
        × IsServed y
        × ((j : Bytes) → contents h view y.server j ≡ contents h view x.server j)
  unfolding call_at
  get_at_lem key val x v small there short =
      let (y, ran, left, inv) =
        send_get_value nic db h view store_laws (session v.desk x.server) (v.es i) (v.slot i) key
          val (v.well.each i v.desk v.here) small there short in
      (
        seat i (some (desk_of y)) y.server x,
        rw (call_at, v.here, ran) refl,
        record {
          es = set i (v.es i) v.es;
          slot = set i (v.slot i) v.slot;
          desk = desk_of y;
          here = set_same i (some (desk_of y)) x.desks;
          only = λ k d there'. elim (ℕ_discrete k i) [
            | yes here' ↦ here'
            | no ne ↦ v.only k d (sym (set_other i k (some (desk_of y)) x.desks ne) ∙ there')
          ];
          well =
              Shift-Well u laws h x v.es v.slot i (some (desk_of y)) (v.es i) (v.slot i) y.server
                v.well
                (quiet-Shift u laws h x v.es v.slot i v.desk y x.server.db v.well v.here inv left);
          spare =
              Spare-same u laws nic db h map_laws view store_laws x y i (v.slot i)
                (set i (v.slot i) v.slot i) (ap (λ s. s.bitmap) left) (ap (λ s. s.queue) left)
                (set_same i (v.slot i) v.slot) v.spare;
        },
        λ j. ap (λ s. contents h view s j) left,
      )

  -- Where `UringRun` frees the waiting chunks before a write, the only client of a frontend/pmr
  -- server keeps what the benchmark expects of a client, but for DELETE: a write always returns,
  -- and a reader sees the value; a bound key is read.
  pub pmr_client-ClientLaws :
      ClientLaws (pmr_client u nic db h i) (λ x. contents h view x.server) IsServed false
  pmr_client-ClientLaws = record {
    put_lem = λ key val x v f. write_at_lem put key val x (inl refl) v f;
    update_lem = λ key val x v f. write_at_lem update key val x (inr refl) v f;
    get_lem = λ key val x v small there short. get_at_lem key val x v small there short;
    delete_lem = λ key x may v small. cc;
  }
