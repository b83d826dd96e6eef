-- ===== src/Server/Lock/Moves.antt =====
-- What holds of the lock and the counts in every state that threads reach.
use sis_op_ii.Common.{
  ℕ, ◌+◌, ◌-◌, ◌≤◌, ◌<◌, ◌≡◌, refl, ◌⊎◌, inl, inr, Bool, true, false, none, some, List, arith,
  if◌then◌else◌,
}
use sis_op_ii.Server.Lock.{
  Lock, reader_lock, reader_unlock, writer_arrive, writer_enter, writer_unlock, Phase, System, goes,
  total, sleeping_writer, first_check, later_check, Step, start_reading, wait_reading, stop_reading,
  start_writing, wait_writing, resume_writing, wait_again, stop_writing, wake_reading, wake_writing,
  Reaches, at_start, after,
}
use sis_op_ii.Server.Lock.Count.{
  reads, writes, sleeping_reader, awake_writer, total-outside, goes-Recount, NotifiesOne-Notified,
  notify_all-AllNotified,
}

abbrev pub bit : Bool → ℕ
bit b = if b then 1 else 0

pub bit-le : (b : Bool) → bit b ≤ 1
bit-le true = omega arith
bit-le false = omega arith

-- The lock's counters are the counts; readers and a writer are not inside together; a writer that
-- sleeps has somebody inside or a notified writer to wake it; so has a reader, or a writer asleep.
pub record IsSafe (l : Lock) (ts : List Phase) : Type 0 where
  pub readers : l.readers_count ≡ total reads ts
  pub waiting : l.writers_waiting ≡ total sleeping_writer ts + total awake_writer ts
  pub active : bit l.writer_active ≡ total writes ts
  pub apart : (total reads ts ≡ 0) ⊎ (total writes ts ≡ 0)
  pub writers_called :
      (total sleeping_writer ts ≡ 0)
      ⊎ (0 < total reads ts + total writes ts + total awake_writer ts)
  pub readers_called :
      (total sleeping_reader ts ≡ 0)
      ⊎ (0 < total writes ts + total sleeping_writer ts + total awake_writer ts)

pub reader_lock-taken :
    (l l' : Lock)
    → reader_lock l ≡ some l'
    → (bit l.writer_active ≡ 0)
      × (bit l'.writer_active ≡ 0)
      × (l'.readers_count ≡ l.readers_count + 1)
      × (l.writers_waiting ≡ 0)
      × (l'.writers_waiting ≡ 0)
unfolding reader_lock
reader_lock-taken l l' e = ground (arith)

reader_lock-refused :
    (l : Lock) → reader_lock l ≡ none → 0 < bit l.writer_active + l.writers_waiting
unfolding reader_lock
reader_lock-refused l e = ground (arith)

writer_enter-taken :
    (l l' : Lock)
    → writer_enter l ≡ some l'
    → (l.readers_count ≡ 0)
      × (bit l.writer_active ≡ 0)
      × (l'.readers_count ≡ 0)
      × (bit l'.writer_active ≡ 1)
      × (l'.writers_waiting ≡ l.writers_waiting - 1)
unfolding writer_enter
writer_enter-taken l l' e = ground (arith)

writer_enter-refused :
    (l : Lock) → writer_enter l ≡ none → 0 < bit l.writer_active + l.readers_count
unfolding writer_enter
writer_enter-refused l e = ground (arith)

Step-IsSafe : (s s' : System) → Step s s' → IsSafe s.lock s.threads → IsSafe s'.lock s'.threads
unfolding reader_unlock writer_arrive writer_unlock
Step-IsSafe s s' (start_reading i before l first_check at taken) h = ground (
  arith,
  reader_lock-taken s.lock l taken,
  goes-Recount s.threads i Phase.outside Phase.reading at,
)
Step-IsSafe s s' (start_reading i before l later_check at taken) h = ground (
  arith,
  reader_lock-taken s.lock l taken,
  goes-Recount s.threads i Phase.reader_awake Phase.reading at,
)
Step-IsSafe s s' (wait_reading i before first_check at refused) h = ground (
  arith,
  reader_lock-refused s.lock refused,
  goes-Recount s.threads i Phase.outside Phase.reader_asleep at,
)
Step-IsSafe s s' (wait_reading i before later_check at refused) h = ground (
  arith,
  reader_lock-refused s.lock refused,
  goes-Recount s.threads i Phase.reader_awake Phase.reader_asleep at,
)
Step-IsSafe s s' (stop_reading i ts at (inl (last, told))) h = ground (
  arith,
  last,
  goes-Recount s.threads i Phase.reading Phase.outside at,
  NotifiesOne-Notified (goes s.threads i Phase.outside) ts told,
)
Step-IsSafe s s' (stop_reading i ts at (inr (more, same_threads))) h =
    rw same_threads (ground (arith, more, goes-Recount s.threads i Phase.reading Phase.outside at))
Step-IsSafe s s' (start_writing i l at taken) h = ground (
  arith,
  writer_enter-taken (writer_arrive s.lock) l taken,
  goes-Recount s.threads i Phase.outside Phase.writing at,
)
Step-IsSafe s s' (wait_writing i at refused) h = ground (
  arith,
  writer_enter-refused (writer_arrive s.lock) refused,
  goes-Recount s.threads i Phase.outside Phase.writer_asleep at,
)
Step-IsSafe s s' (resume_writing i l at taken) h = ground (
  arith,
  writer_enter-taken s.lock l taken,
  goes-Recount s.threads i Phase.writer_awake Phase.writing at,
)
Step-IsSafe s s' (wait_again i at refused) h = ground (
  arith,
  writer_enter-refused s.lock refused,
  goes-Recount s.threads i Phase.writer_awake Phase.writer_asleep at,
)
Step-IsSafe s s' (stop_writing i ts at (inl (more, told))) h = ground (
  arith,
  more,
  goes-Recount s.threads i Phase.writing Phase.outside at,
  NotifiesOne-Notified (goes s.threads i Phase.outside) ts told,
)
Step-IsSafe s s' (stop_writing i ts at (inr (last, told))) h = rw told (
    ground (
      arith,
      last,
      goes-Recount s.threads i Phase.writing Phase.outside at,
      notify_all-AllNotified (goes s.threads i Phase.outside),
    ))
Step-IsSafe s s' (wake_reading i at) h =
    ground (arith, goes-Recount s.threads i Phase.reader_asleep Phase.reader_awake at)
Step-IsSafe s s' (wake_writing i at) h =
    ground (arith, goes-Recount s.threads i Phase.writer_asleep Phase.writer_awake at)

pub Reaches-IsSafe : (n : ℕ) (s : System) → Reaches n s → IsSafe s.lock s.threads
Reaches-IsSafe n s at_start = ground (
  arith,
  total-outside reads n refl,
  total-outside writes n refl,
  total-outside sleeping_reader n refl,
  total-outside sleeping_writer n refl,
  total-outside awake_writer n refl,
)
Reaches-IsSafe n s' (after s s'' reached step) = Step-IsSafe s s' step (Reaches-IsSafe n s reached)
