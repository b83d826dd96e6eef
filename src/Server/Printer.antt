-- ===== src/Server/Printer.antt =====
-- The thread of ServerInterface::run and the calls of ServerInterface::notify
-- (T1/server/serverInterface.cpp), with the mutex and the condition variable between them. What
-- happens while `mtx` is held is one step, but for a round of `run`, which holds it from the end of
-- its wait to the end of the round.
pub mod Notices
use sis_op_ii.Common.{ℕ, zero, suc, ◌+◌, ◌≡◌, ◌≢◌, Bool, true, false}

-- The thread of `run`: before it looks at the condition of its wait, in the wait, in a round.
pub data Printer : Type 0 where
  looking asleep printing : Printer

-- `changes` counts the calls of notify that have set `data_changed`, `callers` those of them that
-- have still to call notify_one, and `shown` is the number of changes that had been made when the
-- last round began.
pub record Screen : Type 0 where
  pub data_changed : Bool
  pub printer : Printer
  pub changes : ℕ
  pub callers : ℕ
  pub shown : ℕ

-- As `start` leaves it, before any change.
abbrev pub blank : Screen
blank = record {
  data_changed = false;
  printer = Printer.looking;
  changes = 0;
  callers = 0;
  shown = 0;
}

-- The section of notify.
unfoldable pub change : Screen → Screen
change s = record s { data_changed = true; changes = suc s.changes; callers = suc s.callers }

-- `notify_one`: only the thread of `run` ever waits.
abbrev pub wake_printer : Printer → Printer
wake_printer Printer.asleep = Printer.looking
wake_printer a = a

-- The end of the wait, and the end of the round.
unfoldable pub begin_round : Screen → Screen
begin_round s = record s { printer = Printer.printing; shown = s.changes }

unfoldable pub end_round : Screen → Screen
end_round s = record s { printer = Printer.looking; data_changed = false }

pub data Turn (s : Screen) : Screen → Type 0 where
  notify : s.printer ≢ Printer.printing → Turn s (change s)
  notify_one :
      (k : ℕ)
      → s.callers ≡ suc k
      → Turn s (record s { callers = k; printer = wake_printer s.printer })
  sleep :
      s.printer ≡ Printer.looking
      → s.data_changed ≡ false
      → Turn s (record s { printer = Printer.asleep })
  wake_spuriously : s.printer ≡ Printer.asleep → Turn s (record s { printer = Printer.looking })
  begins : s.printer ≡ Printer.looking → s.data_changed ≡ true → Turn s (begin_round s)
  ends : s.printer ≡ Printer.printing → Turn s (end_round s)

pub data Reaches : Screen → Type 0 where
  here : Reaches blank
  step : (s t : Screen) → Reaches s → Turn s t → Reaches t
