-- ===== src/Interface/Finish.antt =====
-- How a session ends.
use mathlib.Core.List.{append-nil}
use sis_op_ii.Common.{
  ◌≡◌, refl, sym, ap, ◌∙◌, Bool, true, false, ◌&&◌, List, [], ◌∷◌, Text, arith, if◌then◌else◌,
}
use sis_op_ii.Interface.{
  is_empty, push, finish, Taken, take_front, try_get, Producer, Consumer, Handler, Session, started,
  wake, Move, skip_line, push_line, notify_pushed, close_input, notify_closed, sleep, take_command,
  leave, process, Step, move, interrupt, notify_interrupted, wake_spuriously, Reaches, here, step,
  commands,
}
use sis_op_ii.Interface.Order.{try_get-front, Reaches-commands}

-- The producer has seen the end of its input.
abbrev at_end : Producer → Bool
at_end Producer.reading = false
at_end Producer.pushed = false
at_end Producer.closing = true
at_end Producer.stopped = true

over-empty :
    (queue : List Text) (finished : Bool)
    → (if finished && is_empty queue then Taken.over else take_front queue finished) ≡ Taken.over
    → (queue ≡ []) × (finished ≡ true)
over-empty [] true e = (refl, refl)
over-empty [] false e = absurd (cc e)
over-empty (line ∷ queue) true e = absurd (cc e)
over-empty (line ∷ queue) false e = absurd (cc e)

-- A session that SIGINT has not reached is finished by the end of its input only.
record IsTidy (s : Session) : Type 0 where
  over : s.consumer ≡ Consumer.ended → s.interface.finished ≡ true
  closed : at_end s.producer ≡ true → (s.input ≡ []) × (s.interface.finished ≡ true)
  cause : s.interface.finished ≡ true → s.handler ≡ Handler.quiet → at_end s.producer ≡ true
  drained : s.consumer ≡ Consumer.ended → s.handler ≡ Handler.quiet → s.interface.command_queue ≡ []

wake-ended : (c : Consumer) → wake c ≡ Consumer.ended → c ≡ Consumer.ended
wake-ended Consumer.checking e = e
wake-ended Consumer.asleep e = absurd (cc e)
wake-ended (Consumer.working line) e = e
wake-ended Consumer.ended e = e

Move-IsTidy : (s t : Session) → Move s t → IsTidy s → IsTidy t
unfolding push finish try_get
Move-IsTidy s _ (skip_line rest reads input) h = record {
  over = h.over;
  closed = λ e. ground (arith);
  cause = h.cause;
  drained = h.drained;
}
Move-IsTidy s _ (push_line line rest reads input some_text) h = record {
  over = h.over;
  closed = λ e. absurd (cc e);
  cause = λ e quiet. absurd (cc (h.cause e quiet, reads));
  drained = λ e quiet. absurd (cc (h.cause (h.over e) quiet, reads));
}
Move-IsTidy s _ (notify_pushed at) h = record {
  over = λ e. h.over (wake-ended s.consumer e);
  closed = λ e. absurd (cc e);
  cause = λ e quiet. absurd (cc (h.cause e quiet, at));
  drained = λ e. h.drained (wake-ended s.consumer e);
}
Move-IsTidy s _ (close_input reads input) h = record {
  over = λ e. refl;
  closed = λ e. (input, refl);
  cause = λ e quiet. refl;
  drained = h.drained;
}
Move-IsTidy s _ (notify_closed at) h = record {
  over = λ e. h.over (wake-ended s.consumer e);
  closed = λ e. h.closed (ap at_end at);
  cause = λ e quiet. refl;
  drained = λ e. h.drained (wake-ended s.consumer e);
}
Move-IsTidy s _ (sleep at waits) h = record {
  over = λ e. absurd (cc e);
  closed = h.closed;
  cause = h.cause;
  drained = λ e. absurd (cc e);
}
Move-IsTidy s _ (take_command line i at ready taken) h =
    let (_, same_end) = try_get-front s.interface line i taken in
    record {
      over = λ e. absurd (cc e);
      closed = λ e. ((h.closed e).0, same_end ∙ (h.closed e).1);
      cause = λ e. h.cause (sym same_end ∙ e);
      drained = λ e. absurd (cc e);
    }
Move-IsTidy s _ (leave at ready taken) h =
    let (no_command, done) = over-empty s.interface.command_queue s.interface.finished taken in
    record { over = λ e. done; closed = h.closed; cause = h.cause; drained = λ e quiet. no_command }
Move-IsTidy s _ (process line at) h = record {
  over = λ e. absurd (cc e);
  closed = h.closed;
  cause = h.cause;
  drained = λ e. absurd (cc e);
}

Step-IsTidy : (s t : Session) → Step s t → IsTidy s → IsTidy t
unfolding finish
Step-IsTidy s t (move _ m) h = Move-IsTidy s t m h
Step-IsTidy s _ interrupt h = record {
  over = λ e. refl;
  closed = λ e. ((h.closed e).0, refl);
  cause = λ e quiet. absurd (cc quiet);
  drained = λ e quiet. absurd (cc quiet);
}
Step-IsTidy s _ (notify_interrupted at) h = record {
  over = λ e. h.over (wake-ended s.consumer e);
  closed = h.closed;
  cause = λ e quiet. absurd (cc quiet);
  drained = λ e quiet. absurd (cc quiet);
}
Step-IsTidy s _ (wake_spuriously at) h = record {
  over = λ e. absurd (cc e);
  closed = h.closed;
  cause = h.cause;
  drained = λ e. absurd (cc e);
}

Reaches-IsTidy : (lines : List Text) (s : Session) → Reaches lines s → IsTidy s
unfolding started
Reaches-IsTidy lines _ here = record {
  over = λ e. absurd (cc e);
  closed = λ e. absurd (cc e);
  cause = λ e. absurd (cc e);
  drained = λ e. absurd (cc e);
}
Reaches-IsTidy lines _ (step s t r m) = Step-IsTidy s t m (Reaches-IsTidy lines s r)

pub ended-closed :
    (lines : List Text) (s : Session)
    → Reaches lines s
    → at_end s.producer ≡ true
    → (s.input ≡ []) × (s.interface.finished ≡ true)
ended-closed lines s r = (Reaches-IsTidy lines s r).closed

-- Without SIGINT, every command is done when the consumer has ended.
pub ended-processed :
    (lines : List Text) (s : Session)
    → Reaches lines s
    → s.consumer ≡ Consumer.ended
    → s.handler ≡ Handler.quiet
    → s.processed ≡ commands lines
unfolding commands
ended-processed lines s r ended quiet =
    let h = Reaches-IsTidy lines s r in
    let no_input = (h.closed (h.cause (h.over ended) quiet)).0 in
    sym (append-nil s.processed)
    ∙ (rw (ended, h.drained ended quiet, no_input) at (Reaches-commands lines s r))
