-- ===== src/Server/Lock.antt =====
-- The readers-writer lock of the server: reader_lock, reader_unlock, writer_lock and writer_unlock
-- (T1/server/Server.cpp). A step is what a thread does while it holds `data_mutex`. A thread that
-- waits on a condition variable is asleep until it is notified, or wakes by itself; then it checks
-- the condition of its `wait` again.
pub mod Count
pub mod Moves
pub mod Exclusion
pub mod Progress
use sis_op_ii.Common.{
  ℕ, ◌+◌, ◌-◌, ◌≡◌, ◌⊎◌, Bool, true, false, ◌&&◌, not, Option, none, some, List, [], ◌∷◌, ◌==◌,
  if◌then◌else◌, get_elem?, modify, replicate, map,
}

pub record Lock : Type 0 where
  pub readers_count : ℕ
  pub writer_active : Bool
  pub writers_waiting : ℕ

-- As the constructor sets it.
abbrev pub free : Lock
free = record { readers_count = 0; writer_active = false; writers_waiting = 0 }

-- The check of the `wait` and what follows it; `none` waits.
unfoldable pub reader_lock : Lock → Option Lock
reader_lock l =
    if not l.writer_active && (l.writers_waiting == 0)
    then some (record l { readers_count = l.readers_count + 1 })
    else none

unfoldable pub reader_unlock : Lock → Lock
reader_unlock l = record l { readers_count = l.readers_count - 1 }

-- writer_lock up to its `wait`.
unfoldable pub writer_arrive : Lock → Lock
writer_arrive l = record l { writers_waiting = l.writers_waiting + 1 }

-- writer_lock from its `wait` on.
unfoldable pub writer_enter : Lock → Option Lock
writer_enter l =
    if (l.readers_count == 0) && not l.writer_active
    then some (record l { writers_waiting = l.writers_waiting - 1; writer_active = true })
    else none

unfoldable pub writer_unlock : Lock → Lock
writer_unlock l = record l { writer_active = false }

-- Where a thread is: outside; in the `wait` of reader_lock, asleep or notified; between reader_lock
-- and reader_unlock; and the same for a writer.
pub data Phase : Type 0 where
  outside reader_asleep reader_awake reading writer_asleep writer_awake writing : Phase

pub record System : Type 0 where
  pub lock : Lock
  pub threads : List Phase

-- Thread i goes to `after`.
abbrev pub goes : List Phase → ℕ → Phase → List Phase
goes ts i after = modify i (λ _. after) ts

abbrev pub sleeping_writer : Phase → ℕ
sleeping_writer Phase.writer_asleep = 1
sleeping_writer _ = 0

abbrev pub total : (Phase → ℕ) → List Phase → ℕ
total f [] = 0
total f (a ∷ ts) = f a + total f ts

-- `writer_cv.notify_one()`: some writer that is asleep, if there is one.
pub data NotifiesOne (ts : List Phase) : List Phase → Type 0 where
  nobody : total sleeping_writer ts ≡ 0 → NotifiesOne ts ts
  wakes :
      (k : ℕ)
      → get_elem? ts k ≡ some Phase.writer_asleep
      → NotifiesOne ts (goes ts k Phase.writer_awake)

-- `reader_cv.notify_all()`.
abbrev pub wake_reader : Phase → Phase
wake_reader Phase.reader_asleep = Phase.reader_awake
wake_reader a = a

abbrev pub notify_all : List Phase → List Phase
notify_all [] = []
notify_all (a ∷ ts) = wake_reader a ∷ notify_all ts

-- The notification at the end of reader_unlock, and of writer_unlock.
abbrev pub AfterReader : Lock → List Phase → List Phase → Type 0
AfterReader l ts ts' =
    ((l.readers_count ≡ 0) × NotifiesOne ts ts') ⊎ ((l.readers_count == 0 ≡ false) × (ts' ≡ ts))

abbrev pub AfterWriter : Lock → List Phase → List Phase → Type 0
AfterWriter l ts ts' =
    ((l.writers_waiting == 0 ≡ false) × NotifiesOne ts ts')
    ⊎ ((l.writers_waiting ≡ 0) × (ts' ≡ notify_all ts))

-- A thread that checks the condition of reader_lock.
pub data ChecksReading : Phase → Type 0 where
  first_check : ChecksReading Phase.outside
  later_check : ChecksReading Phase.reader_awake

pub data Step (s : System) : System → Type 0 where
  start_reading :
      (i : ℕ) (before : Phase) (l : Lock)
      → ChecksReading before
      → get_elem? s.threads i ≡ some before
      → reader_lock s.lock ≡ some l
      → Step s (record { lock = l; threads = goes s.threads i Phase.reading })
  wait_reading :
      (i : ℕ) (before : Phase)
      → ChecksReading before
      → get_elem? s.threads i ≡ some before
      → reader_lock s.lock ≡ none
      → Step s (record s { threads = goes s.threads i Phase.reader_asleep })
  stop_reading :
      (i : ℕ) (ts : List Phase)
      → get_elem? s.threads i ≡ some Phase.reading
      → AfterReader (reader_unlock s.lock) (goes s.threads i Phase.outside) ts
      → Step s (record { lock = reader_unlock s.lock; threads = ts })
  start_writing :
      (i : ℕ) (l : Lock)
      → get_elem? s.threads i ≡ some Phase.outside
      → writer_enter (writer_arrive s.lock) ≡ some l
      → Step s (record { lock = l; threads = goes s.threads i Phase.writing })
  wait_writing :
      (i : ℕ)
      → get_elem? s.threads i ≡ some Phase.outside
      → writer_enter (writer_arrive s.lock) ≡ none
      → Step s
          (record { lock = writer_arrive s.lock; threads = goes s.threads i Phase.writer_asleep })
  resume_writing :
      (i : ℕ) (l : Lock)
      → get_elem? s.threads i ≡ some Phase.writer_awake
      → writer_enter s.lock ≡ some l
      → Step s (record { lock = l; threads = goes s.threads i Phase.writing })
  wait_again :
      (i : ℕ)
      → get_elem? s.threads i ≡ some Phase.writer_awake
      → writer_enter s.lock ≡ none
      → Step s (record s { threads = goes s.threads i Phase.writer_asleep })
  stop_writing :
      (i : ℕ) (ts : List Phase)
      → get_elem? s.threads i ≡ some Phase.writing
      → AfterWriter (writer_unlock s.lock) (goes s.threads i Phase.outside) ts
      → Step s (record { lock = writer_unlock s.lock; threads = ts })
  wake_reading :
      (i : ℕ)
      → get_elem? s.threads i ≡ some Phase.reader_asleep
      → Step s (record s { threads = goes s.threads i Phase.reader_awake })
  wake_writing :
      (i : ℕ)
      → get_elem? s.threads i ≡ some Phase.writer_asleep
      → Step s (record s { threads = goes s.threads i Phase.writer_awake })

abbrev pub initial : ℕ → System
initial n = record { lock = free; threads = replicate n Phase.outside }

-- What so many threads can reach.
pub data Reaches (n : ℕ) : System → Type 0 where
  at_start : Reaches n (initial n)
  after : (s s' : System) → Reaches n s → Step s s' → Reaches n s'
