-- ===== src/Server/Lock/Exclusion.antt =====
-- Who is inside the lock together.
use sis_op_ii.Common.{ℕ, ◌≡◌, ◌≢◌, ap, some, arith, get_elem?}
use sis_op_ii.Server.Lock.{Phase, System, Reaches}
use sis_op_ii.Server.Lock.Count.{reads, writes, total-one, total-two}
use sis_op_ii.Server.Lock.Moves.{bit-le, Reaches-IsSafe}

-- In every state that any number of threads reaches by taking and releasing the readers-writer
-- lock in any order, while one thread is between writer_lock and writer_unlock, no other thread is
-- there or between reader_lock and reader_unlock.
pub Reaches-exclusive :
    (n : ℕ) (s : System) (i j : ℕ) (other : Phase)
    → Reaches n s
    → get_elem? s.threads i ≡ some Phase.writing
    → get_elem? s.threads j ≡ some other
    → i ≢ j
    → (other ≢ Phase.reading) × (other ≢ Phase.writing)
Reaches-exclusive n s i j other reached writer someone ne =
    let h = Reaches-IsSafe n s reached in
    let one = total-one writes i Phase.writing s.threads writer in
    let two = total-two writes i j Phase.writing other s.threads writer someone ne in
    let reader = total-one reads j other s.threads someone in
    let small = bit-le s.lock.writer_active in
    (
      λ is_reading. ground (arith, h.apart, one, reader, ap reads is_reading),
      λ is_writing. omega (arith, two, small, h.active, ap writes is_writing),
    )
