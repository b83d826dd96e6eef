-- ===== src/Tests/Printers.antt =====
-- The thread of the server's interface.
use sis_op_ii.Common.{◌≡◌, ◌<◌, ◌⊎◌, refl, true, arith}
use sis_op_ii.Server.Printer.{Printer, Screen, blank, change, notify, sleep, Reaches, here, step}
use sis_op_ii.Server.Printer.Notices.{Reaches-Heeded}

-- A change while the thread of the interface sleeps.
abbrev unread : Screen
unread = change (record blank { printer = Printer.asleep })

unread-Reaches : Reaches unread
unfolding change
unread-Reaches = step _ _ (step _ _ here (sleep refl refl)) (notify (λ e. cc e))

Reaches-Heeded_example :
    (unread.data_changed ≡ true)
    × ((unread.printer ≡ Printer.looking)
        ⊎ ((unread.printer ≡ Printer.asleep) × (0 < unread.callers)))
unfolding change
Reaches-Heeded_example = Reaches-Heeded unread unread-Reaches (λ e. absurd (omega (arith, e)))
