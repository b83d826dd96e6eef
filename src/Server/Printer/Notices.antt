-- ===== src/Server/Printer/Notices.antt =====
-- No change is missed.
use sis_op_ii.Common.{◌≤◌, ◌<◌, ◌≡◌, ◌≢◌, refl, ◌⊎◌, inl, inr, true, false, arith, Bool-cases}
use sis_op_ii.Server.Printer.{
  Printer, Screen, change, wake_printer, begin_round, end_round, Turn, notify, notify_one, sleep,
  wake_spuriously, begins, ends, Reaches, here, step,
}

-- What holds in every state.
record IsAware (s : Screen) : Type 0 where
  called : s.printer ≡ Printer.asleep → s.data_changed ≡ true → 0 < s.callers
  fresh : s.printer ≡ Printer.printing → s.shown ≡ s.changes
  quiet : s.data_changed ≡ false → s.shown ≡ s.changes
  past : s.shown ≤ s.changes

wake_printer-awake : (a : Printer) → wake_printer a ≢ Printer.asleep
wake_printer-awake Printer.looking = λ e. cc e
wake_printer-awake Printer.asleep = λ e. cc e
wake_printer-awake Printer.printing = λ e. cc e

wake_printer-printing : (a : Printer) → wake_printer a ≡ Printer.printing → a ≡ Printer.printing
wake_printer-printing Printer.looking e = absurd (cc e)
wake_printer-printing Printer.asleep e = absurd (cc e)
wake_printer-printing Printer.printing e = refl

Turn-IsAware : (s t : Screen) → Turn s t → IsAware s → IsAware t
unfolding change begin_round end_round
Turn-IsAware s _ (notify free) a = ground (arith, a.past)
Turn-IsAware s _ (notify_one k e) a = record {
  called = λ sleeps changed. absurd (wake_printer-awake s.printer sleeps);
  fresh = λ prints. a.fresh (wake_printer-printing s.printer prints);
  quiet = a.quiet;
  past = a.past;
}
Turn-IsAware s _ (sleep at same) a = ground (arith, a.quiet, a.past)
Turn-IsAware s _ (wake_spuriously at) a = ground (arith, a.quiet, a.past)
Turn-IsAware s _ (begins at changed) a = ground (arith)
Turn-IsAware s _ (ends at) a = ground (arith, a.fresh)

Reaches-IsAware : (s : Screen) → Reaches s → IsAware s
Reaches-IsAware _ here = record {
  called = λ sleeps changed. absurd (cc sleeps);
  fresh = λ prints. refl;
  quiet = λ same. refl;
  past = omega arith;
}
Reaches-IsAware _ (step s t r m) = Turn-IsAware s t m (Reaches-IsAware s r)

-- In every state of the thread of ServerInterface::run and of any calls of notify, also after
-- spurious wake-ups: as long as no round of the thread has begun since the last call of notify set
-- `data_changed`, this is set, and the thread is about to look at it, or it waits and some call of
-- notify has still to call notify_one.
pub Reaches-Heeded :
    (s : Screen)
    → Reaches s
    → s.shown ≢ s.changes
    → (s.data_changed ≡ true)
      × ((s.printer ≡ Printer.looking) ⊎ ((s.printer ≡ Printer.asleep) × (0 < s.callers)))
Reaches-Heeded s r unshown = elim (Bool-cases s.data_changed) [
  | inl changed ↦ (changed, stage s.printer refl changed)
  | inr same ↦ absurd (unshown (a.quiet same))
]
  where
    a : IsAware s
    a = Reaches-IsAware s r

    stage :
        (printer : Printer)
        → s.printer ≡ printer
        → s.data_changed ≡ true
        → (s.printer ≡ Printer.looking) ⊎ ((s.printer ≡ Printer.asleep) × (0 < s.callers))
    stage Printer.looking e changed = inl e
    stage Printer.asleep e changed = inr (e, a.called e changed)
    stage Printer.printing e changed = absurd (unshown (a.fresh e))
