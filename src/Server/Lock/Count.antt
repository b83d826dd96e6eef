-- ===== src/Server/Lock/Count.antt =====
-- Threads counted by their phase, and what a notification does to the counts.
use sis_op_ii.Common.{
  ℕ, zero, suc, ◌+◌, ◌≤◌, ◌<◌, ◌≡◌, ◌≢◌, refl, ap, ◌⊎◌, inl, inr, some, List, [], ◌∷◌, arith,
  get_elem?, modify, replicate,
}
use sis_op_ii.Server.Lock.{
  Phase, goes, sleeping_writer, total, NotifiesOne, nobody, wakes, notify_all,
}

abbrev pub reads : Phase → ℕ
reads Phase.reading = 1
reads _ = 0

abbrev pub writes : Phase → ℕ
writes Phase.writing = 1
writes _ = 0

abbrev pub sleeping_reader : Phase → ℕ
sleeping_reader Phase.reader_asleep = 1
sleeping_reader _ = 0

abbrev pub awake_writer : Phase → ℕ
awake_writer Phase.writer_awake = 1
awake_writer _ = 0

pub total-modify :
    (f : Phase → ℕ) (i : ℕ) (a b : Phase) (ts : List Phase)
    → get_elem? ts i ≡ some a
    → total f (modify i (λ _. b) ts) + f a ≡ total f ts + f b
total-modify f i a b [] e = cc
total-modify f zero a b (x ∷ ts) e = ground (arith)
total-modify f (suc i) a b (x ∷ ts) e = omega (arith, total-modify f i a b ts e)

pub total-one :
    (f : Phase → ℕ) (i : ℕ) (a : Phase) (ts : List Phase)
    → get_elem? ts i ≡ some a
    → f a ≤ total f ts
total-one f i a [] e = cc
total-one f zero a (x ∷ ts) e = ground (arith)
total-one f (suc i) a (x ∷ ts) e = omega (arith, total-one f i a ts e)

pub total-two :
    (f : Phase → ℕ) (i j : ℕ) (a b : Phase) (ts : List Phase)
    → get_elem? ts i ≡ some a
    → get_elem? ts j ≡ some b
    → i ≢ j
    → f a + f b ≤ total f ts
total-two f i j a b [] e g ne = cc
total-two f zero zero a b (x ∷ ts) e g ne = absurd (ne refl)
total-two f zero (suc j) a b (x ∷ ts) e g ne = ground (arith, total-one f j b ts g)
total-two f (suc i) zero a b (x ∷ ts) e g ne = ground (arith, total-one f i a ts e)
total-two f (suc i) (suc j) a b (x ∷ ts) e g ne =
    omega (arith, total-two f i j a b ts e g (λ h. ne (ap suc h)))

pub total-outside :
    (f : Phase → ℕ) (n : ℕ) → f Phase.outside ≡ 0 → total f (replicate n Phase.outside) ≡ 0
total-outside f zero e = refl
total-outside f (suc n) e = omega (arith, total-outside f n e)

-- A thread of a kind that is counted.
pub total-found :
    (f : Phase → ℕ) (ts : List Phase)
    → 0 < total f ts
    → (i : ℕ) × (a : Phase) × (get_elem? ts i ≡ some a) × (0 < f a)
total-found f [] h = absurd (omega arith)
total-found f (x ∷ ts) h = elim (zero_or_more (f x)) [
  | inl none_here ↦
      let (i, a, at, counted) = total-found f ts (omega (arith, none_here)) in
      (suc i, a, at, counted)
  | inr here ↦ (0, x, refl, here)
]
  where
    zero_or_more : (n : ℕ) → (n ≡ 0) ⊎ (0 < n)
    zero_or_more zero = inl refl
    zero_or_more (suc n) = inr (omega arith)

-- A thread has moved.
pub record Recount (ts ts' : List Phase) (before after : Phase) : Type 0 where
  pub readers : total reads ts' + reads before ≡ total reads ts + reads after
  pub writers : total writes ts' + writes before ≡ total writes ts + writes after
  pub readers_asleep :
      total sleeping_reader ts' + sleeping_reader before
      ≡ total sleeping_reader ts + sleeping_reader after
  pub writers_asleep :
      total sleeping_writer ts' + sleeping_writer before
      ≡ total sleeping_writer ts + sleeping_writer after
  pub writers_awake :
      total awake_writer ts' + awake_writer before ≡ total awake_writer ts + awake_writer after

pub goes-Recount :
    (ts : List Phase) (i : ℕ) (before after : Phase)
    → get_elem? ts i ≡ some before
    → Recount ts (goes ts i after) before after
goes-Recount ts i before after at = record {
  readers = total-modify reads i before after ts at;
  writers = total-modify writes i before after ts at;
  readers_asleep = total-modify sleeping_reader i before after ts at;
  writers_asleep = total-modify sleeping_writer i before after ts at;
  writers_awake = total-modify awake_writer i before after ts at;
}

-- After `notify_one` no writer is asleep, or one is awake.
pub record Notified (ts ts' : List Phase) : Type 0 where
  pub readers : total reads ts' ≡ total reads ts
  pub writers : total writes ts' ≡ total writes ts
  pub readers_asleep : total sleeping_reader ts' ≡ total sleeping_reader ts
  pub waiting :
      total sleeping_writer ts' + total awake_writer ts'
      ≡ total sleeping_writer ts + total awake_writer ts
  pub woken : (total sleeping_writer ts' ≡ 0) ⊎ (0 < total awake_writer ts')

pub NotifiesOne-Notified : (ts ts' : List Phase) → NotifiesOne ts ts' → Notified ts ts'
NotifiesOne-Notified ts ts' (nobody e) = record {
  readers = refl;
  writers = refl;
  readers_asleep = refl;
  waiting = refl;
  woken = inl e;
}
NotifiesOne-Notified ts ts' (wakes k at) =
    let m = goes-Recount ts k Phase.writer_asleep Phase.writer_awake at in
    record {
      readers = omega (arith, m.readers);
      writers = omega (arith, m.writers);
      readers_asleep = omega (arith, m.readers_asleep);
      waiting = omega (arith, m.writers_asleep, m.writers_awake);
      woken = inr (omega (arith, m.writers_awake));
    }

total-notify_all :
    (f : Phase → ℕ) (ts : List Phase)
    → f Phase.reader_asleep ≡ f Phase.reader_awake
    → total f (notify_all ts) ≡ total f ts
total-notify_all f [] e = refl
total-notify_all f (Phase.reader_asleep ∷ ts) e = omega (arith, total-notify_all f ts e)
total-notify_all f (Phase.outside ∷ ts) e = omega (arith, total-notify_all f ts e)
total-notify_all f (Phase.reader_awake ∷ ts) e = omega (arith, total-notify_all f ts e)
total-notify_all f (Phase.reading ∷ ts) e = omega (arith, total-notify_all f ts e)
total-notify_all f (Phase.writer_asleep ∷ ts) e = omega (arith, total-notify_all f ts e)
total-notify_all f (Phase.writer_awake ∷ ts) e = omega (arith, total-notify_all f ts e)
total-notify_all f (Phase.writing ∷ ts) e = omega (arith, total-notify_all f ts e)

none_asleep : (ts : List Phase) → total sleeping_reader (notify_all ts) ≡ 0
none_asleep [] = refl
none_asleep (Phase.reader_asleep ∷ ts) = omega (arith, none_asleep ts)
none_asleep (Phase.outside ∷ ts) = omega (arith, none_asleep ts)
none_asleep (Phase.reader_awake ∷ ts) = omega (arith, none_asleep ts)
none_asleep (Phase.reading ∷ ts) = omega (arith, none_asleep ts)
none_asleep (Phase.writer_asleep ∷ ts) = omega (arith, none_asleep ts)
none_asleep (Phase.writer_awake ∷ ts) = omega (arith, none_asleep ts)
none_asleep (Phase.writing ∷ ts) = omega (arith, none_asleep ts)

-- After `notify_all` no reader is asleep.
pub record AllNotified (ts ts' : List Phase) : Type 0 where
  pub readers : total reads ts' ≡ total reads ts
  pub writers : total writes ts' ≡ total writes ts
  pub readers_asleep : total sleeping_reader ts' ≡ 0
  pub writers_asleep : total sleeping_writer ts' ≡ total sleeping_writer ts
  pub writers_awake : total awake_writer ts' ≡ total awake_writer ts

pub notify_all-AllNotified : (ts : List Phase) → AllNotified ts (notify_all ts)
notify_all-AllNotified ts = record {
  readers = total-notify_all reads ts refl;
  writers = total-notify_all writes ts refl;
  readers_asleep = none_asleep ts;
  writers_asleep = total-notify_all sleeping_writer ts refl;
  writers_awake = total-notify_all awake_writer ts refl;
}
