-- ===== src/Pmr/Owners.antt =====
-- What `FreeChunk` of frontend/pmr/pmr.cc does to a chunk whose bit is set.
use pmraccess.Base.{ℕ, ◌<◌, ◌≡◌, ◌∙◌, true, false, arith, lt→ltb, ◌==◌, if◌then◌else◌}
use pmraccess.Outcome.{done}
use pmraccess.Bitset.{AtomicBitset}
use pmraccess.Bitset.Laws.{test, IsValid, get_lem, clear_lem}
use pmraccess.Pmr.State.{Server, chunk_count, free_chunk}

-- A bit as a number.
abbrev pub bit_at : AtomicBitset → ℕ → ℕ
bit_at b c = if test b c then 1 else 0

-- `FreeChunk` of a chunk with its bit set passes both asserts and clears that bit.
pub free_chunk_lem :
    {S T : Type 0} (chunkid : ℕ) (s : Server S T)
    → IsValid s.bitmap
    → s.bitmap.size ≡ chunk_count
    → chunkid < chunk_count
    → test s.bitmap chunkid ≡ true
    → (b : AtomicBitset) × (free_chunk chunkid s ≡ done (record s { bitmap = b }))
      × IsValid b
      × (b.size ≡ chunk_count)
      × ((j : ℕ) → test b j ≡ (if chunkid == j then false else test s.bitmap j))
unfolding free_chunk
free_chunk_lem chunkid s v size lt used =
    let within : chunkid < s.bitmap.size = omega (arith, size) in
    let (b, ran, valid, same, bits) = clear_lem chunkid s.bitmap v within in
    (
      b,
      rw (lt→ltb chunkid chunk_count lt, get_lem chunkid s.bitmap within, used, ran),
      valid,
      same ∙ size,
      bits,
    )
