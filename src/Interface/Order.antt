-- ===== src/Interface/Order.antt =====
-- The commands between the keyboard and processCommand: none is lost, doubled or overtaken.
use mathlib.Core.List.{append_assoc}
use sis_op_ii.Common.{
  ◌≡◌, refl, ap, ◌∙◌, Bool, true, false, ◌&&◌, List, [], ◌∷◌, ◌++◌, Text, if◌then◌else◌,
}
use sis_op_ii.Interface.{
  Interface, is_empty, push, finish, Taken, take_front, try_get, Consumer, Session, started, wake,
  Move, skip_line, push_line, notify_pushed, close_input, notify_closed, sleep, take_command, leave,
  process, Step, move, interrupt, notify_interrupted, wake_spuriously, Reaches, here, step,
  commands, in_hand,
}

-- All commands of a session, from the first one done to the last one to be read.
abbrev all_commands : Session → List Text
all_commands s =
    s.processed ++ (in_hand s.consumer ++ (s.interface.command_queue ++ commands s.input))

pub in_hand-wake : (c : Consumer) → in_hand (wake c) ≡ in_hand c
in_hand-wake Consumer.checking = refl
in_hand-wake Consumer.asleep = refl
in_hand-wake (Consumer.working line) = refl
in_hand-wake Consumer.ended = refl

pub commands-line :
    (line : Text) (rest : List Text)
    → is_empty line ≡ false
    → commands (line ∷ rest) ≡ line ∷ commands rest
unfolding commands
commands-line [] rest e = cc
commands-line (c ∷ line) rest e = refl

front :
    (line : Text) (i' : Interface) (queue : List Text) (finished : Bool)
    → (if finished && is_empty queue then Taken.over else take_front queue finished)
      ≡ Taken.command line i'
    → (queue ≡ line ∷ i'.command_queue) × (i'.finished ≡ finished)
front line i' [] true e = cc
front line i' [] false e = cc
front line i' (c ∷ queue) true e = (cc, cc)
front line i' (c ∷ queue) false e = (cc, cc)

-- A command that is taken was the first of the queue.
pub try_get-front :
    (i : Interface) (line : Text) (i' : Interface)
    → try_get i ≡ Taken.command line i'
    → (i.command_queue ≡ line ∷ i'.command_queue) × (i'.finished ≡ i.finished)
unfolding try_get
try_get-front i line i' e = front line i' i.command_queue i.finished e

Move-commands : (s t : Session) → Move s t → all_commands t ≡ all_commands s
unfolding commands push finish
Move-commands s _ (skip_line rest reads input) = rw input
Move-commands s _ (push_line line rest reads input some_text) =
    rw (input, commands-line line rest some_text)
      (ap (λ xs. s.processed ++ (in_hand s.consumer ++ xs))
        (append_assoc s.interface.command_queue (line ∷ []) (commands rest)))
Move-commands s _ (notify_pushed at) = rw (in_hand-wake s.consumer)
Move-commands s _ (close_input reads input) = refl
Move-commands s _ (notify_closed at) = rw (in_hand-wake s.consumer)
Move-commands s _ (sleep at waits) = rw at
Move-commands s _ (take_command line i at ready taken) =
    rw (at, (try_get-front s.interface line i taken).0)
Move-commands s _ (leave at ready taken) = rw at
Move-commands s _ (process line at) =
    rw at (append_assoc s.processed (line ∷ []) (s.interface.command_queue ++ commands s.input))

Step-commands : (s t : Session) → Step s t → all_commands t ≡ all_commands s
unfolding finish
Step-commands s t (move _ m) = Move-commands s t m
Step-commands s _ interrupt = refl
Step-commands s _ (notify_interrupted at) = rw (in_hand-wake s.consumer)
Step-commands s _ (wake_spuriously at) = rw at

-- In every state of a session, also after SIGINT and spurious wake-ups, the commands that are
-- done, the one in hand, the ones in the queue and those still to be read are, in this order, the
-- lines of the input that are not empty.
pub Reaches-commands :
    (lines : List Text) (s : Session)
    → Reaches lines s
    → s.processed ++ (in_hand s.consumer ++ (s.interface.command_queue ++ commands s.input))
      ≡ commands lines
unfolding started
Reaches-commands lines _ here = refl
Reaches-commands lines _ (step s t r m) = Step-commands s t m ∙ Reaches-commands lines s r
