-- ===== src/Tests/Sessions.antt =====
-- A session of the client's interface: an empty line, one command, the end of the input.
use sis_op_ii.Common.{◌+◌, ◌*◌, ◌≤◌, ◌≡◌, refl, ◌⊎◌, true, false, List, [], ◌∷◌, ◌++◌, Text, length}
use sis_op_ii.Interface.{
  Interface, push, finish, is_ready, try_get, Producer, Consumer, Handler, Session, started, Move,
  skip_line, push_line, notify_pushed, close_input, notify_closed, sleep, take_command, leave,
  process, Reaches, here, step, move, commands, in_hand,
}
use sis_op_ii.Interface.Order.{Reaches-commands}
use sis_op_ii.Interface.Wakes.{Notifies, Reaches-Notifies}
use sis_op_ii.Interface.Runs.{Runs, begin, next, Runs-finish}

abbrev lines : List Text
lines = [] ∷ (7 ∷ []) ∷ []

abbrev queue_of : List Text → Interface
queue_of queue = record { command_queue = queue; finished = false }

-- The consumer sleeps when the command is pushed.
abbrev sleeping : Session
sleeping = record {
  interface = queue_of ((7 ∷ []) ∷ []);
  input = [];
  producer = Producer.pushed;
  consumer = Consumer.asleep;
  handler = Handler.quiet;
  processed = [];
}

sleeping-Runs : Runs lines 3 sleeping
unfolding started push is_ready
sleeping-Runs =
    next 2 _ _
      (next 1 _ _ (next 0 _ _ begin (skip_line ((7 ∷ []) ∷ []) refl refl)) (sleep refl refl))
      (push_line (7 ∷ []) [] refl refl refl)

sleeping-Reaches : Reaches lines sleeping
unfolding started push is_ready
sleeping-Reaches =
    step _ _
      (step _ _ (step _ _ here (move _ (skip_line ((7 ∷ []) ∷ []) refl refl)))
        (move _ (sleep refl refl)))
      (move _ (push_line (7 ∷ []) [] refl refl refl))

Reaches-commands_example :
    sleeping.processed
      ++ (in_hand sleeping.consumer
          ++ (sleeping.interface.command_queue ++ commands sleeping.input))
    ≡ commands lines
Reaches-commands_example = Reaches-commands lines sleeping sleeping-Reaches

Reaches-Notifies_example : Notifies sleeping
unfolding is_ready
Reaches-Notifies_example = Reaches-Notifies lines sleeping sleeping-Reaches refl refl

abbrev last : Session
last = record {
  interface = record { command_queue = []; finished = true };
  input = [];
  producer = Producer.stopped;
  consumer = Consumer.ended;
  handler = Handler.quiet;
  processed = (7 ∷ []) ∷ [];
}

last-Runs : Runs lines 9 last
unfolding started push is_ready finish try_get
last-Runs =
    next 8 _ _
      (next 7 _ _
        (next 6 _ _
          (next 5 _ _
            (next 4 _ _ (next 3 _ _ sleeping-Runs (notify_pushed refl))
              (take_command (7 ∷ []) (queue_of []) refl refl refl))
            (process (7 ∷ []) refl))
          (close_input refl refl))
        (notify_closed refl))
      (leave refl refl refl)

Runs-finish_example :
    (9 ≤ 5 * length lines + 4)
    × (((t : Session) × Move last t)
        ⊎ ((last.producer ≡ Producer.stopped)
            × (last.consumer ≡ Consumer.ended)
            × (last.processed ≡ commands lines)))
Runs-finish_example = Runs-finish lines 9 last last-Runs
