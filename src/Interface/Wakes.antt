-- ===== src/Interface/Wakes.antt =====
-- The condition variable of the queue: whoever makes its condition true also notifies.
use sis_op_ii.Common.{◌≡◌, refl, ◌⊎◌, inl, inr, true, List, Text}
use sis_op_ii.Interface.{
  is_ready, Producer, Consumer, Handler, Session, started, wake, Move, skip_line, push_line,
  notify_pushed, close_input, notify_closed, sleep, take_command, leave, process, Step, move,
  interrupt, notify_interrupted, wake_spuriously, Reaches, here, step,
}

-- A call of notify_one or notify_all is still to come.
abbrev pub Notifies : Session → Type 0
Notifies s =
    (s.producer ≡ Producer.pushed)
    ⊎ ((s.producer ≡ Producer.closing) ⊎ (s.handler ≡ Handler.running))

HasCalled : Session → Type 0
HasCalled s = s.consumer ≡ Consumer.asleep → is_ready s.interface ≡ true → Notifies s

wake-awake {ℓ} : {A : Type ℓ} (c : Consumer) → wake c ≡ Consumer.asleep → A
wake-awake Consumer.checking e = absurd (cc e)
wake-awake Consumer.asleep e = absurd (cc e)
wake-awake (Consumer.working line) e = absurd (cc e)
wake-awake Consumer.ended e = absurd (cc e)

Move-HasCalled : (s t : Session) → Move s t → HasCalled s → HasCalled t
unfolding HasCalled
Move-HasCalled s _ (skip_line rest reads input) h = h
Move-HasCalled s _ (push_line line rest reads input some_text) h = λ sleeps ready. inl refl
Move-HasCalled s _ (notify_pushed at) h = λ sleeps ready. wake-awake s.consumer sleeps
Move-HasCalled s _ (close_input reads input) h = λ sleeps ready. inr (inl refl)
Move-HasCalled s _ (notify_closed at) h = λ sleeps ready. wake-awake s.consumer sleeps
Move-HasCalled s _ (sleep at waits) h = λ sleeps ready. absurd (cc (waits, ready))
Move-HasCalled s _ (take_command line i at ready taken) h = λ sleeps ready'. absurd (cc sleeps)
Move-HasCalled s _ (leave at ready taken) h = λ sleeps ready'. absurd (cc sleeps)
Move-HasCalled s _ (process line at) h = λ sleeps ready. absurd (cc sleeps)

Step-HasCalled : (s t : Session) → Step s t → HasCalled s → HasCalled t
unfolding HasCalled
Step-HasCalled s t (move _ m) h = Move-HasCalled s t m h
Step-HasCalled s _ interrupt h = λ sleeps ready. inr (inr refl)
Step-HasCalled s _ (notify_interrupted at) h = λ sleeps ready. wake-awake s.consumer sleeps
Step-HasCalled s _ (wake_spuriously at) h = λ sleeps ready. absurd (cc sleeps)

-- In every state of a session, also after SIGINT and spurious wake-ups: if the thread that
-- consumes commands waits although its condition is true, then the other thread has still to call
-- notify_one or notify_all, or the handler of SIGINT has still to call notify_all.
pub Reaches-Notifies :
    (lines : List Text) (s : Session)
    → Reaches lines s
    → s.consumer ≡ Consumer.asleep
    → is_ready s.interface ≡ true
    → Notifies s
unfolding started HasCalled
Reaches-Notifies lines _ here sleeps ready = absurd (cc sleeps)
Reaches-Notifies lines _ (step s t r m) sleeps ready =
    Step-HasCalled s t m (Reaches-Notifies lines s r) sleeps ready
