-- ===== src/Interface/Runs.antt =====
-- Runs of the two threads alone.
use sis_op_ii.Common.{
  ℕ, suc, ◌+◌, ◌*◌, ◌≤◌, ◌<◌, ◌≡◌, refl, ◌∙◌, ◌⊎◌, inl, inr, Bool, true, false, ◌&&◌, ◌||◌, not,
  List, [], ◌∷◌, Text, arith, if◌then◌else◌, length, length-append, Bool-cases,
}
use sis_op_ii.Interface.{
  Interface, is_empty, push, finish, is_ready, Taken, take_front, try_get, Producer, Consumer,
  Handler, Session, started, wake, Move, skip_line, push_line, notify_pushed, close_input,
  notify_closed, sleep, take_command, leave, process, move, Reaches, here, step, commands,
}
use sis_op_ii.Interface.Order.{try_get-front}
use sis_op_ii.Interface.Wakes.{Reaches-Notifies}
use sis_op_ii.Interface.Finish.{ended-closed, ended-processed}

-- A session after so many moves.
pub data Runs (lines : List Text) : ℕ → Session → Type 0 where
  begin : Runs lines 0 (started lines)
  next : (n : ℕ) (s t : Session) → Runs lines n s → Move s t → Runs lines (suc n) t

-- What the two threads still have to do at most.
abbrev producer_work : Producer → ℕ
producer_work Producer.reading = 3
producer_work Producer.pushed = 5
producer_work Producer.closing = 2
producer_work Producer.stopped = 0

abbrev consumer_work : Consumer → ℕ
consumer_work Consumer.checking = 1
consumer_work Consumer.asleep = 0
consumer_work (Consumer.working line) = 2
consumer_work Consumer.ended = 0

work : Session → ℕ
work s =
    5 * length s.input
    + 2 * length s.interface.command_queue
    + producer_work s.producer
    + consumer_work s.consumer

wake-work : (c : Consumer) → consumer_work (wake c) ≤ consumer_work c + 1
wake-work Consumer.checking = omega arith
wake-work Consumer.asleep = omega arith
wake-work (Consumer.working line) = omega arith
wake-work Consumer.ended = omega arith

Move-work : (s t : Session) → Move s t → work t < work s
unfolding work push finish
Move-work s _ (skip_line rest reads input) = rw input (omega arith)
Move-work s _ (push_line line rest reads input some_text) =
    rw (input, reads) (omega (arith, length-append s.interface.command_queue (line ∷ [])))
Move-work s _ (notify_pushed at) = rw at (omega (arith, wake-work s.consumer))
Move-work s _ (close_input reads input) = rw reads (omega arith)
Move-work s _ (notify_closed at) = rw at (omega (arith, wake-work s.consumer))
Move-work s _ (sleep at waits) = rw at (omega arith)
Move-work s _ (take_command line i at ready taken) =
    rw (at, (try_get-front s.interface line i taken).0) (omega arith)
Move-work s _ (leave at ready taken) = rw at (omega arith)
Move-work s _ (process line at) = rw at (omega arith)

Runs-work :
    (lines : List Text) (n : ℕ) (s : Session) → Runs lines n s → n + work s ≤ 5 * length lines + 4
unfolding work started
Runs-work lines _ _ begin = omega arith
Runs-work lines _ _ (next n s t r m) = omega (arith, Runs-work lines n s r, Move-work s t m)

Runs-Reaches : (lines : List Text) (n : ℕ) (s : Session) → Runs lines n s → Reaches lines s
Runs-Reaches lines _ _ begin = here
Runs-Reaches lines _ _ (next n s t r m) = step s t (Runs-Reaches lines n s r) (move t m)

Move-handler : (s t : Session) → Move s t → t.handler ≡ s.handler
Move-handler s _ (skip_line rest reads input) = refl
Move-handler s _ (push_line line rest reads input some_text) = refl
Move-handler s _ (notify_pushed at) = refl
Move-handler s _ (close_input reads input) = refl
Move-handler s _ (notify_closed at) = refl
Move-handler s _ (sleep at waits) = refl
Move-handler s _ (take_command line i at ready taken) = refl
Move-handler s _ (leave at ready taken) = refl
Move-handler s _ (process line at) = refl

Runs-quiet : (lines : List Text) (n : ℕ) (s : Session) → Runs lines n s → s.handler ≡ Handler.quiet
unfolding started
Runs-quiet lines _ _ begin = refl
Runs-quiet lines _ _ (next n s t r m) = Move-handler s t m ∙ Runs-quiet lines n s r

Moves : Session → Type 0
Moves s = (t : Session) × Move s t

-- The producer goes on until it stops.
producer-Moves :
    (s : Session) (input : List Text)
    → s.input ≡ input
    → (p : Producer) → s.producer ≡ p
    → (p ≡ Producer.stopped) ⊎ Moves s
unfolding Moves
producer-Moves s [] e Producer.reading at = inr (_, close_input at e)
producer-Moves s ([] ∷ rest) e Producer.reading at = inr (_, skip_line rest at e)
producer-Moves s ((c ∷ line) ∷ rest) e Producer.reading at =
    inr (_, push_line (c ∷ line) rest at e refl)
producer-Moves s input e Producer.pushed at = inr (_, notify_pushed at)
producer-Moves s input e Producer.closing at = inr (_, notify_closed at)
producer-Moves s input e Producer.stopped at = inl refl

-- The wait is over when there is a command or nothing more to come.
ready-taken :
    (queue : List Text) (finished : Bool)
    → not (is_empty queue) || finished ≡ true
    → let r = if finished && is_empty queue then Taken.over else take_front queue finished in
      (r ≡ Taken.over) ⊎ ((line : Text) × (i : Interface) × (r ≡ Taken.command line i))
ready-taken [] true e = inl refl
ready-taken [] false e = absurd (cc e)
ready-taken (line ∷ queue) true e = inr (_, _, refl)
ready-taken (line ∷ queue) false e = inr (_, _, refl)

checking-Moves : (s : Session) → s.consumer ≡ Consumer.checking → Moves s
unfolding Moves is_ready try_get
checking-Moves s at = elim (Bool-cases (is_ready s.interface)) [
  | inl ready ↦ elim (ready-taken s.interface.command_queue s.interface.finished ready) [
    | inl over ↦ (_, leave at ready over)
    | inr (line, i, taken) ↦ (_, take_command line i at ready taken)
  ]
  | inr waits ↦ (_, sleep at waits)
]

finished-ready : (i : Interface) → i.finished ≡ true → is_ready i ≡ true
unfolding is_ready
finished-ready i e = ground arith

-- A consumer asleep has nobody left to wake it only if there was nothing to wake it for.
asleep-called :
    (lines : List Text) (s : Session)
    → Reaches lines s
    → s.handler ≡ Handler.quiet
    → s.producer ≡ Producer.stopped
    → s.consumer ≡ Consumer.asleep
    → ⊥
asleep-called lines s r quiet stops sleeps =
    let (no_input, over) = ended-closed lines s r (rw stops refl) in
    elim (Reaches-Notifies lines s r sleeps (finished-ready s.interface over)) [
      | inl pushes ↦ cc (pushes, stops)
      | inr (inl closes) ↦ cc (closes, stops)
      | inr (inr runs) ↦ cc (runs, quiet)
    ]

consumer-Moves :
    (lines : List Text) (s : Session)
    → Reaches lines s
    → s.handler ≡ Handler.quiet
    → s.producer ≡ Producer.stopped
    → (c : Consumer) → s.consumer ≡ c
    → (c ≡ Consumer.ended) ⊎ Moves s
unfolding Moves
consumer-Moves lines s r quiet stops Consumer.checking at = inr (checking-Moves s at)
consumer-Moves lines s r quiet stops Consumer.asleep at =
    absurd (asleep-called lines s r quiet stops at)
consumer-Moves lines s r quiet stops (Consumer.working line) at = inr (_, process line at)
consumer-Moves lines s r quiet stops Consumer.ended at = inl refl

-- Every run of the two threads of the client's interface, without SIGINT and without spurious
-- wake-ups, makes at most five moves for each line of the input and four more. In each state of
-- such a run either some thread can move, or both threads have ended and the commands that
-- processCommand has done are the lines of the input that are not empty, in their order.
pub Runs-finish :
    (lines : List Text) (n : ℕ) (s : Session)
    → Runs lines n s
    → (n ≤ 5 * length lines + 4)
      × (((t : Session) × Move s t)
          ⊎ ((s.producer ≡ Producer.stopped)
              × (s.consumer ≡ Consumer.ended)
              × (s.processed ≡ commands lines)))
unfolding Moves
Runs-finish lines n s r =
    let reached = Runs-Reaches lines n s r in
    let quiet = Runs-quiet lines n s r in
    (
      omega (arith, Runs-work lines n s r),
      elim (producer-Moves s s.input refl s.producer refl) [
        | inr moves ↦ inl moves
        | inl stops ↦ elim (consumer-Moves lines s reached quiet stops s.consumer refl) [
          | inr moves ↦ inl moves
          | inl ended ↦ inr (stops, ended, ended-processed lines s reached ended quiet)
        ]
      ],
    )
