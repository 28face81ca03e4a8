-- ===== src/RingLog/Laps.antt =====
-- Where the records of frontend/group/ringlog.h lie in the file, however threads interleave.
use pmraccess.Base.{
  ℕ, ◌+◌, ◌^◌, ◌<◌, ◌≤◌, ◌≡◌, refl, List, [], ◌∷◌, ◌++◌, ◌==◌, if◌then◌else◌, arith, Bool-cases,
  inl, inr,
}
use pmraccess.RingLog.{
  preallocate_size, next_pos, Pc, idle, loaded, reserved, Move, begin, win, fail, finish,
}

-- A reservation: `len` bytes at `pos`.
pub record Region : Type 0 where
  pub pos : ℕ
  pub len : ℕ

-- The reservations that a move makes: one, where an exchange succeeds.
abbrev pub won : {offset offset' : ℕ} {p p' : Pc} → Move offset p offset' p' → List Region
won (win {pos} {len} e) = record { pos = pos; len = len } ∷ []
won (begin len h) = []
won fail = []
won finish = []

pub record System : Type 0 where
  pub offset : ℕ
  pub pc : ℕ → Pc

-- Reachable states, with the reservations made so far, the newest first.
pub data Reach : System → List Region → Type 0 where
  start : Reach (record { offset = 0; pc = λ _. idle }) []
  later :
      {s : System} {rs : List Region} (t : ℕ) {offset' : ℕ} {p' : Pc}
      → Reach s rs
      → (mv : Move s.offset (s.pc t) offset' p')
      → Reach (record { offset = offset'; pc = λ u. if t == u then p' else s.pc u }) (won mv ++ rs)

-- Each reservation starts where the one before it ended, or at a wrap.
abbrev pub IsChain : List Region → ℕ → Type 0
IsChain [] offset = offset ≡ 0
IsChain (r ∷ rs) offset = (offset ≡ next_pos r.pos r.len) × (r.len < 2 ^ 32) × IsChain rs r.pos

-- Lengths that threads carry are those of `int` arguments.
abbrev IsSmall : Pc → Type 0
IsSmall idle = Unit {0}
IsSmall (loaded pos len) = len < 2 ^ 32
IsSmall (reserved pos len) = len < 2 ^ 32

move-IsSmall : {o o' : ℕ} {p p' : Pc} → Move o p o' p' → IsSmall p → IsSmall p'
move-IsSmall (begin len h) s = h
move-IsSmall (win e) s = s
move-IsSmall fail s = s
move-IsSmall finish s = tt

move-IsChain :
    {o o' : ℕ} {p p' : Pc} (rs : List Region) (mv : Move o p o' p')
    → IsSmall p
    → IsChain rs o
    → IsChain (won mv ++ rs) o'
move-IsChain rs (begin len h) s c = c
move-IsChain rs (win e) s c = (refl, s, rw e at c)
move-IsChain rs fail s c = c
move-IsChain rs finish s c = c

Reach-IsSmall : {s : System} {rs : List Region} → Reach s rs → (t : ℕ) → IsSmall (s.pc t)
Reach-IsSmall start t = tt
Reach-IsSmall (later {s} u {offset'} {p'} r mv) t = elim (Bool-cases (u == t)) [
  | inl same ↦ rw same (move-IsSmall mv (Reach-IsSmall r u))
  | inr other ↦ rw other (Reach-IsSmall r t)
]

-- However threads interleave, and however often their exchanges fail, the reservations form one
-- chain that ends at the present offset.
pub Reach-IsChain : {s : System} {rs : List Region} → Reach s rs → IsChain rs s.offset
Reach-IsChain start = refl
Reach-IsChain (later {s} {rs} t r mv) = move-IsChain rs mv (Reach-IsSmall r t) (Reach-IsChain r)

-- In the present lap: no reservation started at or past the preallocated size.
abbrev pub InLap : List Region → Type 0
InLap [] = Unit {0}
InLap (r ∷ rs) = (r.pos < preallocate_size) × InLap rs

abbrev pub AllAbove : ℕ → List Region → Type 0
AllAbove n [] = Unit {0}
AllAbove n (r ∷ rs) = (n ≤ r.pos) × AllAbove n rs

chain_above :
    (newer : List Region) (r : Region) (older : List Region) (offset : ℕ)
    → IsChain (newer ++ r ∷ older) offset
    → InLap (newer ++ r ∷ [])
    → AllAbove (r.pos + r.len) newer × (r.pos + r.len ≤ offset)
unfolding next_pos
chain_above [] r older offset c l = (tt, ground arith)
chain_above (x ∷ newer) r older offset c l =
    let (above, le) = chain_above newer r older x.pos c.2 l.1 in ((le, above), ground arith)

-- In every reachable state of any number of threads, no two reservations of one lap (of which none
-- starts at or past the preallocated size) overlap: every later one starts at or past the end of an
-- earlier one, and so does the present offset.
pub lap_disjoint :
    {s : System} (newer : List Region) (r : Region) (older : List Region)
    → Reach s (newer ++ r ∷ older)
    → InLap (newer ++ r ∷ [])
    → AllAbove (r.pos + r.len) newer × (r.pos + r.len ≤ s.offset)
lap_disjoint {s} newer r older reach lap =
    chain_above newer r older s.offset (Reach-IsChain reach) lap
