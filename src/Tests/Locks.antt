-- ===== src/Tests/Locks.antt =====
-- Three threads at the lock: the first writes, the second waits to write, the third to read.
use sis_op_ii.Common.{ℕ, ◌≢◌, refl, inl, true, [], ◌∷◌, arith}
use sis_op_ii.Server.Lock.{
  free, reader_lock, writer_arrive, writer_enter, writer_unlock, Phase, System, Step, first_check,
  wait_reading, start_writing, wait_writing, stop_writing, wakes, initial, Reaches, at_start, after,
}
use sis_op_ii.Server.Lock.Exclusion.{Reaches-exclusive}
use sis_op_ii.Server.Lock.Progress.{GoesOn, Reaches-GoesOn}

abbrev one_writes : System
one_writes = record {
  lock = record free { writer_active = true };
  threads = Phase.writing ∷ Phase.outside ∷ Phase.outside ∷ [];
}

abbrev other_waits : System
other_waits = record {
  lock = record free { writer_active = true; writers_waiting = 1 };
  threads = Phase.writing ∷ Phase.writer_asleep ∷ Phase.outside ∷ [];
}

abbrev both_wait : System
both_wait = record {
  lock = record free { writer_active = true; writers_waiting = 1 };
  threads = Phase.writing ∷ Phase.writer_asleep ∷ Phase.reader_asleep ∷ [];
}

abbrev released : System
released = record {
  lock = record free { writers_waiting = 1 };
  threads = Phase.outside ∷ Phase.writer_awake ∷ Phase.reader_asleep ∷ [];
}

first_move : Step (initial 3) one_writes
unfolding writer_enter writer_arrive
first_move = start_writing 0 (record free { writer_active = true }) refl refl

second_move : Step one_writes other_waits
unfolding writer_enter writer_arrive
second_move = wait_writing 1 refl refl

third_move : Step other_waits both_wait
unfolding reader_lock
third_move = wait_reading 2 Phase.outside first_check refl refl

fourth_move : Step both_wait released
unfolding writer_unlock
fourth_move = stop_writing 0 released.threads refl (inl (refl, wakes 1 refl))

contended : Reaches 3 both_wait
contended =
    after other_waits both_wait
      (after one_writes other_waits (after (initial 3) one_writes at_start first_move) second_move)
      third_move

Reaches-exclusive_example :
    (Phase.writer_asleep ≢ Phase.reading) × (Phase.writer_asleep ≢ Phase.writing)
Reaches-exclusive_example =
    Reaches-exclusive 3 both_wait 0 1 Phase.writer_asleep contended refl refl (omega arith)

Reaches-GoesOn_example : (i : ℕ) × GoesOn released i
Reaches-GoesOn_example =
    Reaches-GoesOn 3 released 2 Phase.reader_asleep (after both_wait released contended fourth_move)
      refl (λ e. cc)
