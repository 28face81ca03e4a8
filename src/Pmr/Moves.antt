-- ===== src/Pmr/Moves.antt =====
-- How the owners of the chunks of frontend/pmr change when a clerk or the queue gains or loses one.
use pmraccess.Base.{
  ℕ, ◌+◌, ◌*◌, ◌<◌, ◌≤◌, ◌≡◌, ◌≢◌, refl, ◌∙◌, Bool, true, false, List, arith, ◌==◌, if◌then◌else◌,
  occurrences, Mem, ℕ_discrete,
}
use pmraccess.Wire.{max_async_size, u32}
use pmraccess.Uring.{UringOps, UringLaws, IOuring}
use pmraccess.Bitset.Laws.{test}
use pmraccess.Bitset.Alloc.{Took}
use pmraccess.Pmr.State.{Server, Clerk, chunk_count}
use pmraccess.Pmr.Freeing.{waits, CanDrain}
use pmraccess.Pmr.System.{System, slot_of, written}
use pmraccess.Pmr.Ownership.{slots, OwnedOnce}

-- The chunk that `blindset` answers is the clerk's.
pub allocated_slot :
    (c' : Clerk) (slot : ℕ)
    → slot < chunk_count
    → c'.chunk_offset ≡ u32 (max_async_size * slot)
    → slot_of c' ≡ slot
allocated_slot c' slot lt e = omega arith

same_number : (m n : ℕ) → (m == n) ≡ true → m ≡ n
same_number m n e = ground arith

-- A chunk counted under an equal number.
pub counted_as :
    (m n j : ℕ) → m ≡ n → ◌≡◌ {A = ℕ} (if m == j then 1 else 0) (if n == j then 1 else 0)
counted_as m n j e = rw e refl

pub one_less :
    (n m : ℕ) (mine was is : Bool)
    → n ≤ (if was then 1 else 0)
    → n ≡ m + (if mine then 1 else 0)
    → is ≡ (if mine then false else was)
    → m ≤ (if is then 1 else 0)
one_less n m true true is le e b = omega (arith, e)
one_less n m true false is le e b = omega (arith, e)
one_less n m false was is le e b = rw b (omega (arith, e))

at_most :
    (n m : ℕ) (mine was is : Bool)
    → n ≤ (if was then 1 else 0)
    → m ≡ n + (if mine then 1 else 0)
    → is ≡ (if mine then true else was)
    → (mine ≡ true → was ≡ false)
    → m ≤ (if is then 1 else 0)
at_most n m true true is le e b free = absurd (distinct (free refl))
  where
    distinct : true ≢ false
    distinct p = cc
at_most n m true false is le e b free = rw b (omega arith)
at_most n m false was is le e b free = rw b (omega arith)

module _ {K S T : Type 0} (u : UringOps K) {entries : ℕ} (laws : UringLaws u entries) where
  -- Fewer owners, and no bit has changed.
  pub fewer_owners :
      (r : IOuring K) (cs cs' : List Clerk) (s s' : Server S T)
      → (let x : System K S T = record { ring = r; clerks = cs; server = s } in OwnedOnce u laws x)
      → s'.bitmap ≡ s.bitmap
      → ((j : ℕ)
          → occurrences j (slots cs') + waits u laws j r s'
            ≤ occurrences j (slots cs) + waits u laws j r s)
      → (let y : System K S T = record { ring = r; clerks = cs'; server = s' } in
          OwnedOnce u laws y)
  fewer_owners r cs cs' s s' o same le = record {
    sound = o.sound;
    deep = o.deep;
    valid = rw same (o.valid);
    sized = rw same (o.sized);
    once = λ j. rw same (omega (arith, le j, o.once j));
    inside = λ j h. o.inside j (omega (arith, le j));
  }

  -- One owner more, of a chunk that was free.
  pub more_owners :
      (r : IOuring K) (cs cs' : List Clerk) (s s' : Server S T) (slot : ℕ)
      → (let x : System K S T = record { ring = r; clerks = cs; server = s } in OwnedOnce u laws x)
      → Took s.bitmap 0 slot s'.bitmap
      → ((j : ℕ)
          → occurrences j (slots cs') + waits u laws j r s'
            ≡ occurrences j (slots cs) + waits u laws j r s + (if slot == j then 1 else 0))
      → (let y : System K S T = record { ring = r; clerks = cs'; server = s' } in
          OwnedOnce u laws y)
  more_owners r cs cs' s s' slot o t e = record {
    sound = o.sound;
    deep = o.deep;
    valid = t.valid;
    sized = t.same_size ∙ o.sized;
    once = λ j.
        at_most (occurrences j (slots cs) + waits u laws j r s)
          (occurrences j (slots cs') + waits u laws j r s') (slot == j) (test s.bitmap j)
          (test s'.bitmap j) (o.once j) (e j) (t.bits j)
          (λ same. rw (← same_number slot j same) t.was_free);
    inside = λ j h. elim (ℕ_discrete slot j) [
      | yes same ↦ omega (arith, t.within, o.sized)
      | no ne ↦ o.inside j (ground (arith, e j))
    ];
  }

  pub waits_same :
      (j : ℕ) (r : IOuring K) (s s' : Server S T)
      → s'.queue ≡ s.queue
      → waits u laws j r s' ≡ waits u laws j r s
  waits_same j r s s' e = rw e refl

  pub written-OwnedOnce :
      (r : IOuring K) (cs : List Clerk) (s : Server S T) (region : Mem)
      → (let x : System K S T = record { ring = r; clerks = cs; server = s } in OwnedOnce u laws x)
      → (let y : System K S T = record { ring = r; clerks = cs; server = written region s } in
          OwnedOnce u laws y)
  written-OwnedOnce r cs s region o =
      fewer_owners r cs cs s (written region s) o refl (λ j. omega arith)

  -- What waits for `UringRun` has an owner.
  pub owned-CanDrain : (x : System K S T) → OwnedOnce u laws x → CanDrain u laws x.ring x.server
  owned-CanDrain x o = record {
    sound = o.sound;
    deep = o.deep;
    valid = o.valid;
    sized = o.sized;
    once = λ j. omega (arith, o.once j);
    inside = λ j some. o.inside j (omega arith);
  }
