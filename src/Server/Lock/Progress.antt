-- ===== src/Server/Lock/Progress.antt =====
-- Who can go on.
use sis_op_ii.Common.{
  ℕ, ◌+◌, ◌-◌, true, ◌<◌, ◌≡◌, ◌≢◌, refl, ap, ◌∙◌, ◌⊎◌, inl, inr, some, arith, get_elem?,
}
use sis_op_ii.Server.Lock.{
  Lock, reader_lock, writer_enter, Phase, System, total, sleeping_writer, Reaches,
}
use sis_op_ii.Server.Lock.Count.{
  reads, writes, sleeping_reader, awake_writer, total-one, total-found,
}
use sis_op_ii.Server.Lock.Moves.{bit, IsSafe, Reaches-IsSafe}

-- A thread is inside and can leave, or is notified and finds the lock open.
abbrev pub GoesOn : System → ℕ → Type 0
GoesOn s i =
    (get_elem? s.threads i ≡ some Phase.reading)
    ⊎ (get_elem? s.threads i ≡ some Phase.writing)
    ⊎ ((get_elem? s.threads i ≡ some Phase.reader_awake)
        × (l : Lock) × (reader_lock s.lock ≡ some l))
    ⊎ ((get_elem? s.threads i ≡ some Phase.writer_awake)
        × (l : Lock) × (writer_enter s.lock ≡ some l))

reads-counted : (a : Phase) → 0 < reads a → a ≡ Phase.reading
reads-counted Phase.reading h = refl
reads-counted Phase.outside h = absurd (omega arith)
reads-counted Phase.reader_asleep h = absurd (omega arith)
reads-counted Phase.reader_awake h = absurd (omega arith)
reads-counted Phase.writer_asleep h = absurd (omega arith)
reads-counted Phase.writer_awake h = absurd (omega arith)
reads-counted Phase.writing h = absurd (omega arith)

writes-counted : (a : Phase) → 0 < writes a → a ≡ Phase.writing
writes-counted Phase.writing h = refl
writes-counted Phase.outside h = absurd (omega arith)
writes-counted Phase.reader_asleep h = absurd (omega arith)
writes-counted Phase.reader_awake h = absurd (omega arith)
writes-counted Phase.writer_asleep h = absurd (omega arith)
writes-counted Phase.writer_awake h = absurd (omega arith)
writes-counted Phase.reading h = absurd (omega arith)

awake_writer-counted : (a : Phase) → 0 < awake_writer a → a ≡ Phase.writer_awake
awake_writer-counted Phase.writer_awake h = refl
awake_writer-counted Phase.outside h = absurd (omega arith)
awake_writer-counted Phase.reader_asleep h = absurd (omega arith)
awake_writer-counted Phase.reader_awake h = absurd (omega arith)
awake_writer-counted Phase.writer_asleep h = absurd (omega arith)
awake_writer-counted Phase.writing h = absurd (omega arith)
awake_writer-counted Phase.reading h = absurd (omega arith)

writer_enter-open :
    (l : Lock)
    → l.readers_count ≡ 0
    → bit l.writer_active ≡ 0
    → (l' : Lock) × (writer_enter l ≡ some l')
unfolding writer_enter
writer_enter-open l e idle =
    (record l { writers_waiting = l.writers_waiting - 1; writer_active = true }, ground arith)

reader_lock-open :
    (l : Lock)
    → l.writers_waiting ≡ 0
    → bit l.writer_active ≡ 0
    → (l' : Lock) × (reader_lock l ≡ some l')
unfolding reader_lock
reader_lock-open l e idle = (record l { readers_count = l.readers_count + 1 }, ground arith)

zero_or_more : (n : ℕ) → (n ≡ 0) ⊎ (0 < n)
zero_or_more n = ground arith

module _ (s : System) (h : IsSafe s.lock s.threads) where
  reader_inside : 0 < total reads s.threads → (i : ℕ) × GoesOn s i
  reader_inside some_reader =
      let (i, a, at, counted) = total-found reads s.threads some_reader in
      (i, inl (at ∙ ap some (reads-counted a counted)))

  writer_inside : 0 < total writes s.threads → (i : ℕ) × GoesOn s i
  writer_inside some_writer =
      let (i, a, at, counted) = total-found writes s.threads some_writer in
      (i, inr (inl (at ∙ ap some (writes-counted a counted))))

  writer_next :
      total reads s.threads ≡ 0
      → total writes s.threads ≡ 0
      → 0 < total awake_writer s.threads
      → (i : ℕ) × GoesOn s i
  writer_next no_reader no_writer some_awake =
      let (i, a, at, counted) = total-found awake_writer s.threads some_awake in
      let (l, enters) = writer_enter-open s.lock (h.readers ∙ no_reader) (h.active ∙ no_writer) in
      (i, inr (inr (inr (at ∙ ap some (awake_writer-counted a counted), l, enters))))

  nobody_called :
      total reads s.threads ≡ 0
      → total writes s.threads ≡ 0
      → total awake_writer s.threads ≡ 0
      → (j : ℕ) (someone : Phase) → get_elem? s.threads j ≡ some someone
      → someone ≢ Phase.outside
      → (i : ℕ) × GoesOn s i
  nobody_called no_reader no_writer none_awake j Phase.outside at ne = absurd (ne refl)
  nobody_called no_reader no_writer none_awake j Phase.reader_awake at ne =
      let (l, enters) =
        reader_lock-open s.lock
          (ground (arith, h.waiting, h.writers_called, no_reader, no_writer, none_awake))
          (h.active ∙ no_writer) in
      (j, inr (inr (inl (at, l, enters))))
  nobody_called no_reader no_writer none_awake j Phase.reader_asleep at ne = absurd (
      ground (
        arith,
        h.readers_called,
        h.writers_called,
        no_reader,
        no_writer,
        none_awake,
        total-one sleeping_reader j Phase.reader_asleep s.threads at,
      ))
  nobody_called no_reader no_writer none_awake j Phase.reading at ne =
      absurd (omega (arith, no_reader, total-one reads j Phase.reading s.threads at))
  nobody_called no_reader no_writer none_awake j Phase.writing at ne =
      absurd (omega (arith, no_writer, total-one writes j Phase.writing s.threads at))
  nobody_called no_reader no_writer none_awake j Phase.writer_awake at ne =
      absurd (omega (arith, none_awake, total-one awake_writer j Phase.writer_awake s.threads at))
  nobody_called no_reader no_writer none_awake j Phase.writer_asleep at ne = absurd (
      ground (
        arith,
        h.writers_called,
        no_reader,
        no_writer,
        none_awake,
        total-one sleeping_writer j Phase.writer_asleep s.threads at,
      ))

-- In every state that any number of threads reaches from the unused lock, with wake-ups by
-- notify_one and notify_all and with spurious ones: if some thread is at the lock or inside it,
-- then some thread is inside and can leave, or is awake in writer_lock or reader_lock with its
-- condition true.
pub Reaches-GoesOn :
    (n : ℕ) (s : System) (j : ℕ) (someone : Phase)
    → Reaches n s
    → get_elem? s.threads j ≡ some someone
    → someone ≢ Phase.outside
    → (i : ℕ) × GoesOn s i
Reaches-GoesOn n s j someone reached at ne =
    let h = Reaches-IsSafe n s reached in
    elim (zero_or_more (total reads s.threads)) [
      | inr reader ↦ reader_inside s h reader
      | inl no_reader ↦ elim (zero_or_more (total writes s.threads)) [
        | inr writer ↦ writer_inside s h writer
        | inl no_writer ↦ elim (zero_or_more (total awake_writer s.threads)) [
          | inr awake ↦ writer_next s h no_reader no_writer awake
          | inl none_awake ↦ nobody_called s h no_reader no_writer none_awake j someone at ne
        ]
      ]
    ]
