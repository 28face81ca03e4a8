-- ===== src/Tests/Parts.antt =====
-- The properties of the messages, the stores, the bits and the log at concrete inputs.
use pmraccess.Base.{
  ◌<◌, ◌≤◌, ◌≡◌, ◌≢◌, refl, true, false, List, [], ◌∷◌, arith, ◌==◌, if◌then◌else◌,
}
use pmraccess.Outcome.{done}
use pmraccess.Store.{DbLaws}
use pmraccess.Store.Cuckoo.{cuckoo_db, CuckooDb-DbLaws}
use pmraccess.Store.Level.{level_db, LevelDb-DbLaws}
use pmraccess.Bitset.{AtomicBitset, new, set_bit, clear, get}
use pmraccess.Bitset.Laws.{test}
use pmraccess.Bitset.Threads
use pmraccess.Bitset.Threads.{chunk_unique, free_passes}
use pmraccess.RingLog
use pmraccess.RingLog.{Log, new_log, preallocate_size}
use pmraccess.RingLog.Laps
use pmraccess.RingLog.Laps.{Region, AllAbove, lap_disjoint}
use pmraccess.Tests.Data.{
  find_pair, pair_map, pair_map-HashMapLaws, steady_ops, steady_ops-LevelLaws,
}

-- The stores.
CuckooDb-DbLaws_example : DbLaws (cuckoo_db pair_map) (λ t k. find_pair k t)
CuckooDb-DbLaws_example = CuckooDb-DbLaws pair_map pair_map-HashMapLaws

LevelDb-DbLaws_example : DbLaws (level_db steady_ops) (λ s k. s k)
LevelDb-DbLaws_example = LevelDb-DbLaws steady_ops steady_ops-LevelLaws (λ b s. refl)

-- The bits of the chunks.
-- A thread has taken the only chunk.
abbrev taken_bits : AtomicBitset
taken_bits = record { size = 1; blocks = 1 ∷ [] }

abbrev taken_state : Threads.System
taken_state = record {
  bits = taken_bits;
  pc =
      Threads.update
        (Threads.update (Threads.update (λ _. Threads.idle) 3 (Threads.loading 0)) 3
          (Threads.setting 0))
        3 (Threads.holding 0);
}

taken_state-Reach : Threads.Reach 1 taken_state
unfolding new get set_bit
taken_state-Reach =
    Threads.later 3
      (Threads.later 3 (Threads.later 3 Threads.start Threads.begin)
        (Threads.free (omega arith) refl))
      (Threads.won refl)

chunk_unique_example : taken_state.pc 4 ≢ Threads.holding 0
chunk_unique_example = chunk_unique taken_state-Reach 3 4 0 (λ e. omega (arith, e)) refl

free_passes_example :
    (0 < 1)
    × (get 0 taken_bits ≡ done true)
    × ((b' : AtomicBitset) × (clear 0 taken_bits ≡ done (true, b')) × (test b' 0 ≡ false))
free_passes_example = free_passes taken_state-Reach 3 0 refl

-- The log.
abbrev two_regions : List Region
two_regions = record { pos = 100; len = 50 } ∷ record { pos = 0; len = 100 } ∷ []

abbrev two_regions_state : Laps.System
two_regions_state = record {
  offset = 150;
  pc = λ u.
      if 1 == u
      then RingLog.reserved 100 50
      else if 1 == u
      then RingLog.loaded 100 50
      else if 0 == u
      then RingLog.reserved 0 100
      else if 0 == u
      then RingLog.loaded 0 100
      else RingLog.idle;
}

two_regions-Reach : Laps.Reach two_regions_state two_regions
unfolding RingLog.next_pos
two_regions-Reach =
    Laps.later 1
      (Laps.later 1
        (Laps.later 0 (Laps.later 0 Laps.start (RingLog.begin 100 (omega arith)))
          (RingLog.win refl))
        (RingLog.begin 50 (omega arith)))
      (RingLog.win refl)

lap_disjoint_example :
    AllAbove 100 (record { pos = 100; len = 50 } ∷ []) × (100 ≤ two_regions_state.offset)
lap_disjoint_example =
    lap_disjoint (record { pos = 100; len = 50 } ∷ []) (record { pos = 0; len = 100 }) []
      two_regions-Reach (omega arith, (omega arith, tt))
