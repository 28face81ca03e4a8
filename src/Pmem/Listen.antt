-- ===== src/Pmem/Listen.antt =====
-- `PMemServer::Listen` of frontend/pmem/pmem.cc: which part of the persistent memory each clerk is given.
use pmraccess.Base.{
  ℕ, ◌+◌, ◌*◌, ◌^◌, ◌≤◌, ◌≡◌, refl, Bool, List, [], ◌∷◌, arith, ltb, if◌then◌else◌, length,
  Bool-cases, inl, inr,
}
use pmraccess.Outcome.{Outcome, done, aborted, ◌>>=◌, ◌>>◌, check, Ensures, ensured, Ensures-bind}
use pmraccess.Pmem.{pmem_bufsize}

-- Whether `mmap` and `default_connect` succeed for a client.
pub record Answers : Type 0 where
  pub mapped : Bool
  pub connected : Bool

-- `clerk_num_`, and the offsets of the clerks' regions in the device, the newest first.
pub record Clerks : Type 0 where
  pub clerk_num : ℕ
  pub offsets : List ℕ

-- `clerk_num_ * PMEM_BUFSIZE`, a product of two `int`: an overflow is undefined, and ends the model.
unfoldable pub mmap_offset : ℕ → Outcome ℕ
mmap_offset clerk_num =
    if ltb (clerk_num * pmem_bufsize) (2 ^ 31) then done (clerk_num * pmem_bufsize) else aborted

-- A round of the loop.
unfoldable pub listen_round : Answers → Clerks → Outcome Clerks
unfolding mmap_offset
listen_round a s = do
  offset ← mmap_offset s.clerk_num
  check a.mapped
  check a.connected
  done (record { clerk_num = s.clerk_num + 1; offsets = offset ∷ s.offsets })

-- The loop, for as many clients as come.
unfoldable pub listen : List Answers → Clerks → Outcome Clerks
unfolding listen_round
listen [] s = done s
listen (a ∷ more) s = listen_round a s >>= listen more

-- `clerk_num_` as the code means it to start; no constructor sets it.
abbrev pub no_clerks : Clerks
no_clerks = record { clerk_num = 0; offsets = [] }

-- The regions at these offsets end by `n`.
abbrev pub AllBelow : ℕ → List ℕ → Type 0
AllBelow n [] = Unit {0}
AllBelow n (o ∷ os) = (o + pmem_bufsize ≤ n) × AllBelow n os

-- No two of the regions have a byte in common.
abbrev pub Apart : List ℕ → Type 0
Apart [] = Unit {0}
Apart (o ∷ os) = AllBelow o os × Apart os

record Laid (s : Clerks) : Type 0 where
  apart : Apart s.offsets
  below : AllBelow (s.clerk_num * pmem_bufsize) s.offsets
  counted : s.clerk_num ≡ length s.offsets
  few : s.clerk_num ≤ 128

AllBelow-grow : (n m : ℕ) (os : List ℕ) → n ≤ m → AllBelow n os → AllBelow m os
AllBelow-grow n m [] h a = tt
AllBelow-grow n m (o ∷ os) h a = (omega (arith, a.0), AllBelow-grow n m os h (a.1))

listen_round-Laid : (a : Answers) (s : Clerks) → Laid s → Ensures Laid (listen_round a s)
unfolding listen_round
listen_round-Laid a s l = elim (Bool-cases (ltb (s.clerk_num * pmem_bufsize) (2 ^ 31))) [
  | inr over ↦ rw over tt
  | inl fits ↦ rw fits (elim (Bool-cases a.mapped) [
    | inr unmapped ↦ rw unmapped tt
    | inl mapped ↦ rw mapped (elim (Bool-cases a.connected) [
      | inr unconnected ↦ rw unconnected tt
      | inl connected ↦ rw connected (record {
        apart = (l.below, l.apart);
        below = (
          omega arith,
          AllBelow-grow (s.clerk_num * pmem_bufsize) ((s.clerk_num + 1) * pmem_bufsize) s.offsets
              (omega arith) l.below,
        );
        counted = omega (arith, l.counted);
        few = ground arith;
      })
    ])
  ])
]

listen-Laid : (more : List Answers) (s : Clerks) → Laid s → Ensures Laid (listen more s)
unfolding listen
listen-Laid [] s l = l
listen-Laid (a ∷ more) s l =
    Ensures-bind Laid Laid (listen_round a s) (listen more) (listen_round-Laid a s l)
      (λ s' l'. listen-Laid more s' l')

-- Where `clerk_num_` starts at 0 and the loop has gone on, the regions of the clerks have no byte in
-- common, and there are at most 128: the offset of a further one is too large for an `int`.
pub listen_lem :
    (more : List Answers) (s : Clerks)
    → listen more no_clerks ≡ done s
    → Apart s.offsets × (length s.offsets ≤ 128)
listen_lem more s e =
    let l : Laid s =
      ensured Laid
        (listen-Laid more no_clerks
          (record { apart = tt; below = tt; counted = refl; few = omega arith }))
        e in
    (l.apart, omega (arith, l.counted, l.few))
