-- ===== src/Group/Order.antt =====
-- The order in which frontend/group/group.cc stores what its clerks ask for.
use mathlib.Core.List.{append_assoc}
use pmraccess.Base.{
  ℕ, ◌+◌, ◌≡◌, refl, ◌∙◌, ap, Bool, true, false, Option, none, some, List, [], ◌∷◌, ◌++◌, arith,
  leb, if◌then◌else◌, occurrences, Bool-cases, inl, inr, bytes_eq, Bytes,
}
use pmraccess.Wire.{max_async_size}
use pmraccess.Group.{Writer, WriteBatch, build_batch_group}
use pmraccess.Group.Batch.{
  AllFit, Fits, taken, taken_nil, taken_full, taken_more, size_of, last_of, key_of, val_of,
}
use pmraccess.Group.Commit.{after_puts}
use pmraccess.Group.Queue.{
  Pc, idle, asleep, signalled, gathering, writing, popping, ids, at_front, look, at,
}
use pmraccess.Group.Places.{Placed, released}

-- The batch at hand: it is the front of the queue, up to `last`.
pub record Chosen (queue chosen rest : List Writer) (last : Option ℕ) : Type 0 where
  pub first : Writer
  pub others : List Writer
  pub some_writers : chosen ≡ first ∷ others
  pub split : queue ≡ chosen ++ rest
  pub ends : last_of chosen none ≡ last

-- It was built from a queue that began with it.
pub record IsBuilt (batch : WriteBatch) (chosen : List Writer) : Type 0 where
  pub queue : List Writer
  pub old : WriteBatch
  pub fits : AllFit queue
  pub takes : taken 0 queue ≡ chosen
  pub is_batch : batch ≡ (build_batch_group queue old).0

-- What is stored, by where the clerk at the front stands: all that has joined but the queue, or,
-- once the batch is written, but what is behind the batch.
module _ (joined stored queue chosen : List Writer) (batch : WriteBatch) where
  abbrev pub Phase : Pc → Type 0
  Phase idle = joined ≡ stored ++ queue
  Phase asleep = joined ≡ stored ++ queue
  Phase signalled = joined ≡ stored ++ queue
  Phase gathering = joined ≡ stored ++ queue
  Phase (writing last) =
      (joined ≡ stored ++ queue)
      × ((rest : List Writer) × Chosen queue chosen rest last)
      × IsBuilt batch chosen
  Phase (popping last) =
      (rest : List Writer) × Chosen queue chosen rest last × (joined ≡ stored ++ rest)

  -- What a clerk finds when it looks.
  pub Phase-look : (d f : Bool) → joined ≡ stored ++ queue → Phase (look d f)
  Phase-look true f h = h
  Phase-look false true h = h
  Phase-look false false h = h

abbrev pub front_pc : (ℕ → Pc) → List Writer → Pc
front_pc pc [] = idle
front_pc pc (w ∷ ws) = pc w.id

pub front_here :
    (pc : ℕ → Pc) (i : ℕ) (ws : List Writer) → at_front i ws ≡ true → front_pc pc ws ≡ pc i
front_here pc i [] e = cc
front_here pc i (w ∷ ws) e = ap pc (ground arith)

pub front_moved :
    (pc : ℕ → Pc) (i : ℕ) (p : Pc) (ws : List Writer)
    → at_front i ws ≡ true
    → front_pc (at pc i p) ws ≡ p
front_moved pc i p [] e = cc
front_moved pc i p (w ∷ ws) e = ground arith

pub front_stays :
    (pc : ℕ → Pc) (i : ℕ) (p : Pc) (ws : List Writer)
    → at_front i ws ≡ false
    → front_pc (at pc i p) ws ≡ front_pc pc ws
front_stays pc i p [] e = refl
front_stays pc i p (w ∷ ws) e = ground arith

pub taken_prefix : (len : ℕ) (ws : List Writer) → (rest : List Writer) × (ws ≡ taken len ws ++ rest)
taken_prefix len [] = ([], rw (taken_nil len) refl)
taken_prefix len (w ∷ ws) = elim (Bool-cases (leb max_async_size (len + size_of w))) [
  | inl full ↦ (ws, rw (taken_full w ws len full) refl)
  | inr more ↦
      let (rest, e) = taken_prefix (len + size_of w) ws in
      (rest, rw (taken_more w ws len more) (ap (◌∷◌ w) e))
]

pub after_puts-append :
    (xs ys : List Writer) (j : Bytes) (old : Option Bytes)
    → after_puts (xs ++ ys) j old ≡ after_puts ys j (after_puts xs j old)
after_puts-append [] ys j old = refl
after_puts-append (x ∷ xs) ys j old =
    after_puts-append xs ys j (if bytes_eq (key_of x) j then some (val_of x) else old)

pub AllFit-append : (ws : List Writer) (w : Writer) → AllFit ws → Fits w → AllFit (ws ++ w ∷ [])
AllFit-append [] w a f = (f, tt)
AllFit-append (x ∷ ws) w a f = (a.0, AllFit-append ws w a.1 f)

pub AllFit-rest : (ws rest : List Writer) → AllFit (ws ++ rest) → AllFit rest
AllFit-rest [] rest a = a
AllFit-rest (w ∷ ws) rest a = AllFit-rest ws rest (a.1)

-- The clerk `i` moves to `p`.
pub Phase-moved :
    (joined stored queue chosen : List Writer) (batch : WriteBatch) (pc : ℕ → Pc) (i : ℕ) (p : Pc)
    → (at_front i queue ≡ true → Phase joined stored queue chosen batch p)
    → (at_front i queue ≡ false → Phase joined stored queue chosen batch (front_pc pc queue))
    → Phase joined stored queue chosen batch (front_pc (at pc i p) queue)
Phase-moved joined stored queue chosen batch pc i p here there =
    elim (Bool-cases (at_front i queue)) [
      | inl e ↦ rw (front_moved pc i p queue e) (here e)
      | inr e ↦ rw (front_stays pc i p queue e) (there e)
    ]

-- A writer joins behind another.
pub Phase-join :
    (joined stored queue chosen : List Writer) (batch : WriteBatch) (w : Writer) (p : Pc)
    → Phase joined stored queue chosen batch p
    → Phase (joined ++ w ∷ []) stored (queue ++ w ∷ []) chosen batch p
Phase-join joined stored queue chosen batch w p h = on p h
  where
    longer :
        (xs : List Writer) → joined ≡ stored ++ xs → joined ++ w ∷ [] ≡ stored ++ (xs ++ w ∷ [])
    longer xs e = ap (λ ws. ws ++ w ∷ []) e ∙ append_assoc stored xs (w ∷ [])

    behind :
        (rest : List Writer) (last : Option ℕ)
        → Chosen queue chosen rest last
        → Chosen (queue ++ w ∷ []) chosen (rest ++ w ∷ []) last
    behind rest last c = record {
      first = c.first;
      others = c.others;
      some_writers = c.some_writers;
      split = ap (λ ws. ws ++ w ∷ []) c.split ∙ append_assoc chosen rest (w ∷ []);
      ends = c.ends;
    }

    on :
        (p' : Pc)
        → Phase joined stored queue chosen batch p'
        → Phase (joined ++ w ∷ []) stored (queue ++ w ∷ []) chosen batch p'
    on idle e = longer queue e
    on asleep e = longer queue e
    on signalled e = longer queue e
    on gathering e = longer queue e
    on (writing last) (e, (rest, c), b) = (longer queue e, (rest ++ w ∷ [], behind rest last c), b)
    on (popping last) (rest, c, e) = (rest ++ w ∷ [], behind rest last c, longer rest e)

pub Phase-joined :
    (joined stored queue chosen : List Writer) (batch : WriteBatch) (pc : ℕ → Pc) (w : Writer)
    → occurrences w.id (ids queue) ≡ 0
    → Phase joined stored queue chosen batch (front_pc pc queue)
    → Phase
        (joined ++ w ∷ [])
        stored
        (queue ++ w ∷ [])
        chosen
        batch
        (front_pc (at pc w.id (look false (at_front w.id (queue ++ w ∷ [])))) (queue ++ w ∷ []))
Phase-joined joined stored [] chosen batch pc w absent h =
    Phase-moved (joined ++ w ∷ []) stored (w ∷ []) chosen batch pc w.id
      (look false (at_front w.id (w ∷ [])))
      (λ here.
        Phase-look (joined ++ w ∷ []) stored (w ∷ []) chosen batch false (at_front w.id (w ∷ []))
          (Phase-join joined stored [] chosen batch w idle h))
      (λ there. absurd (ground arith))
Phase-joined joined stored (x ∷ queue) chosen batch pc w absent h =
    Phase-moved (joined ++ w ∷ []) stored (x ∷ (queue ++ w ∷ [])) chosen batch pc w.id
      (look false (at_front w.id (x ∷ (queue ++ w ∷ [])))) (λ here. absurd (ground arith))
      (λ there. Phase-join joined stored (x ∷ queue) chosen batch w (pc x.id) h)

pub taken_some :
    (i len : ℕ) (ws : List Writer)
    → at_front i ws ≡ true
    → (first : Writer) × (others : List Writer) × (taken len ws ≡ first ∷ others)
unfolding taken
taken_some i len [] e = cc
taken_some i len (w ∷ ws) e = (w, _, refl)

-- After the release of a batch, no clerk behind it leads.
pub Phase-released :
    (joined stored queue chosen : List Writer) (batch : WriteBatch) (p : Pc) (d mark f : Bool)
    (n : ℕ)
    → Placed p d false n
    → joined ≡ stored ++ queue
    → Phase joined stored queue chosen batch (released p mark f)
Phase-released joined stored queue chosen batch p d mark f n h e = on p mark f h
  where
    on :
        (p' : Pc) (mark' f' : Bool)
        → Placed p' d false n
        → Phase joined stored queue chosen batch (released p' mark' f')
    on idle true f' h' = e
    on idle false true h' = e
    on idle false false h' = e
    on asleep true f' h' = e
    on asleep false true h' = e
    on asleep false false h' = e
    on signalled true f' h' = e
    on signalled false true h' = e
    on signalled false false h' = e
    on gathering mark' f' h' = absurd (low (h'.1))
      where
        low : ¬ (false ≡ true)
        low q = cc
    on (writing last) mark' f' h' = absurd (low (h'.1))
      where
        low : ¬ (false ≡ true)
        low q = cc
    on (popping last) mark' f' h' = absurd (low (h'.1))
      where
        low : ¬ (false ≡ true)
        low q = cc
