-- ===== src/Group/Places.antt =====
-- Where the clerks of frontend/group/group.cc stand, and which of them are in the queue.
use mathlib.Core.List.{map-append}
use pmraccess.Base.{
  ℕ, ◌+◌, ◌<◌, ◌≤◌, ◌≡◌, ◌≢◌, refl, ◌∙◌, ap, Bool, true, false, List, [], ◌∷◌, ◌++◌, arith, ◌==◌,
  if◌then◌else◌, occurrences, occurrences-append, ℕ_discrete,
}
use pmraccess.Group.{Writer}
use pmraccess.Group.Commit.{AllNe, Distinct, followers}
use pmraccess.Group.Queue.{
  Pc, idle, asleep, signalled, gathering, writing, popping, ids, at_front, look, signal,
}

-- A clerk at `p`, with its flag, whether it is at the front, and how often it is in the queue: one
-- that leads is at the front, one that is asleep is not, and is not let go.
abbrev pub Placed : Pc → Bool → Bool → ℕ → Type 0
Placed idle d f n = n ≡ 0
Placed asleep d f n = (n ≡ 1) × (d ≡ false) × (f ≡ false)
Placed signalled true f n = n ≡ 0
Placed signalled false f n = n ≡ 1
Placed gathering d f n = (n ≡ 1) × (f ≡ true)
Placed (writing last) d f n = (n ≡ 1) × (f ≡ true)
Placed (popping last) d f n = (n ≡ 1) × (f ≡ true)

pub Placed-look : (f : Bool) → Placed (look false f) false f 1
Placed-look true = (refl, refl)
Placed-look false = (refl, refl, refl)

pub Placed-signalled : (d f : Bool) (n : ℕ) → Placed signalled d f n → Placed (look d f) d f n
Placed-signalled true f n h = h
Placed-signalled false true n h = (h, refl)
Placed-signalled false false n h = (h, refl, refl)

pub Placed-asleep : (d f : Bool) (n : ℕ) → Placed asleep d f n → Placed (look d f) d f n
Placed-asleep d f n (once, low, behind) = rw (low, behind) (once, refl, refl)

-- A clerk that the release of a batch signals, or not.
abbrev pub released : Pc → Bool → Bool → Pc
released p mark front = if mark then signal p else if front then signal p else p

abbrev pub leads : Pc → Bool
leads (writing last) = true
leads (popping last) = true
leads gathering = true
leads asleep = false
leads signalled = false
leads idle = false

pub Placed-leads : (p : Pc) (d f : Bool) (n : ℕ) → Placed p d f n → leads p ≡ true → f ≡ true
Placed-leads idle d f n h e = cc
Placed-leads asleep d f n h e = cc
Placed-leads signalled d f n h e = cc
Placed-leads gathering d f n h e = h.1
Placed-leads (writing last) d f n h e = h.1
Placed-leads (popping last) d f n h e = h.1

pub Placed-once : (p : Pc) (d f : Bool) (n : ℕ) → Placed p d f n → n ≤ 1
Placed-once idle d f n h = omega (arith, h)
Placed-once asleep d f n h = omega (arith, h.0)
Placed-once signalled true f n h = omega (arith, h)
Placed-once signalled false f n h = omega (arith, h)
Placed-once gathering d f n h = omega (arith, h.0)
Placed-once (writing last) d f n h = omega (arith, h.0)
Placed-once (popping last) d f n h = omega (arith, h.0)

pub Placed-released :
    (p : Pc) (d mark f : Bool) (n n' : ℕ)
    → Placed p d false n
    → n ≡ n' + (if mark then 1 else 0)
    → Placed (released p mark f) (if mark then true else d) f n'
Placed-released idle d true f n n' h e = absurd (omega (arith, h))
Placed-released idle d false true n n' h e = omega (arith, h)
Placed-released idle d false false n n' h e = omega (arith, h)
Placed-released asleep d true f n n' (once, low, behind) e = omega (arith, once)
Placed-released asleep d false true n n' (once, low, behind) e = rw low (omega (arith, once))
Placed-released asleep d false false n n' (once, low, behind) e = (omega (arith, once), low, refl)
Placed-released signalled true true f n n' h e = absurd (omega (arith, h))
Placed-released signalled true false true n n' h e = omega (arith, h)
Placed-released signalled true false false n n' h e = omega (arith, h)
Placed-released signalled false true f n n' h e = omega (arith, h)
Placed-released signalled false false true n n' h e = omega (arith, h)
Placed-released signalled false false false n n' h e = omega (arith, h)
Placed-released gathering d mark f n n' h e = cc
Placed-released (writing last) d mark f n n' h e = cc
Placed-released (popping last) d mark f n n' h e = cc

-- The queue.
pub occurrences_joined :
    (i : ℕ) (ws : List Writer) (w : Writer)
    → occurrences i (ids (ws ++ w ∷ [])) ≡ occurrences i (ids ws) + (if w.id == i then 1 else 0)
occurrences_joined i ws w =
    ap (occurrences i) (map-append (λ x. x.id) ws (w ∷ []))
    ∙ occurrences-append i (ids ws) (w.id ∷ [])
    ∙ omega arith

pub occurrences_split :
    (i : ℕ) (ws rest : List Writer)
    → occurrences i (ids (ws ++ rest)) ≡ occurrences i (ids ws) + occurrences i (ids rest)
occurrences_split i ws rest =
    ap (occurrences i) (map-append (λ x. x.id) ws rest) ∙ occurrences-append i (ids ws) (ids rest)

pub at_front_joined :
    (i : ℕ) (ws : List Writer) (w : Writer) → w.id ≢ i → at_front i (ws ++ w ∷ []) ≡ at_front i ws
at_front_joined i [] w ne = ground arith
at_front_joined i (x ∷ ws) w ne = refl

-- A writer at the front is in the queue, and no other is at the front.
pub at_front_once : (i : ℕ) (ws : List Writer) → at_front i ws ≡ true → 0 < occurrences i (ids ws)
at_front_once i [] e = cc
at_front_once i (w ∷ ws) e = ground arith

pub at_front_unique :
    (i j : ℕ) (ws : List Writer) → at_front i ws ≡ true → at_front j ws ≡ true → i ≡ j
at_front_unique i j [] e e' = cc
at_front_unique i j (w ∷ ws) e e' = ground arith

AllNe-lem : (n : ℕ) (ws : List Writer) → occurrences n (ids ws) ≡ 0 → AllNe n ws
AllNe-lem n [] e = tt
AllNe-lem n (w ∷ ws) e = (ground arith, AllNe-lem n ws (omega arith))

pub Distinct-lem : (ws : List Writer) → ((i : ℕ) → occurrences i (ids ws) ≤ 1) → Distinct ws
Distinct-lem [] h = tt
Distinct-lem (w ∷ ws) h =
    (AllNe-lem w.id ws (ground (arith, h w.id)), Distinct-lem ws (λ i. omega (arith, h i)))

-- The followers of a batch are its writers but the leader.
pub occurrences-followers :
    (me j : ℕ) (ws : List Writer)
    → me ≢ j
    → occurrences j (followers me ws) ≡ occurrences j (ids ws)
occurrences-followers me j [] ne = refl
occurrences-followers me j (w ∷ ws) ne = elim (ℕ_discrete w.id me) [
  | yes mine ↦ rw mine (ground (arith, occurrences-followers me j ws ne))
  | no other ↦ ground (arith, occurrences-followers me j ws ne)
]
