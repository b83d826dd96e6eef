-- ===== src/Interface.antt =====
-- The two threads of the client's interface and the queue between them (T1/client/clientInterface.cpp,
-- T1/client/main.cpp). What happens while queue_mutex is held is one step.
pub mod Order
pub mod Wakes
pub mod Finish
pub mod Runs
use sis_op_ii.Common.{
  ◌≡◌, Bool, true, false, not, ◌&&◌, ◌||◌, List, [], ◌∷◌, ◌++◌, Text, if◌then◌else◌,
}

-- `empty()` of a string and of a queue.
abbrev pub is_empty {ℓ} : {A : Type ℓ} → List A → Bool
is_empty [] = true
is_empty (x ∷ xs) = false

pub record Interface : Type 0 where
  pub command_queue : List Text
  pub finished : Bool

-- The constructor.
abbrev pub no_commands : Interface
no_commands = record { command_queue = []; finished = false }

-- The critical section of userInputThread.
unfoldable pub push : Text → Interface → Interface
push line i = record i { command_queue = i.command_queue ++ line ∷ [] }

-- The critical section of shutdown.
unfoldable pub finish : Interface → Interface
finish i = record i { finished = true }

-- The condition that tryGetCommandFromQueue waits for.
unfoldable pub is_ready : Interface → Bool
is_ready i = not (is_empty i.command_queue) || i.finished

-- What tryGetCommandFromQueue returns after its wait; `fault` is `front()` of an empty queue.
pub data Taken : Type 0 where
  over fault : Taken
  command : Text → Interface → Taken

abbrev pub take_front : List Text → Bool → Taken
take_front [] finished = Taken.fault
take_front (line ∷ queue) finished =
    Taken.command line (record { command_queue = queue; finished = finished })

unfoldable pub try_get : Interface → Taken
try_get i =
    if i.finished && is_empty i.command_queue
    then Taken.over
    else take_front i.command_queue i.finished

-- userInputThread: at getline, before notify_one, after the section of shutdown, at its end.
pub data Producer : Type 0 where
  reading pushed closing stopped : Producer

-- communicationThread: at the condition, in the wait, with a command, at its end.
pub data Consumer : Type 0 where
  checking asleep : Consumer
  working : Text → Consumer
  ended : Consumer

-- The handler of SIGINT: not called yet, between the section of shutdown and notify_all, returned.
pub data Handler : Type 0 where
  quiet running returned : Handler

-- The lines that are still to be read, and the commands that processCommand is done with.
pub record Session : Type 0 where
  pub interface : Interface
  pub input : List Text
  pub producer : Producer
  pub consumer : Consumer
  pub handler : Handler
  pub processed : List Text

-- The threads as `start` creates them.
unfoldable pub started : List Text → Session
started lines = record {
  interface = no_commands;
  input = lines;
  producer = Producer.reading;
  consumer = Consumer.checking;
  handler = Handler.quiet;
  processed = [];
}

-- `notify_one` and `notify_all`: only the consumer ever waits.
abbrev pub wake : Consumer → Consumer
wake Consumer.asleep = Consumer.checking
wake c = c

-- A step of one of the two threads.
pub data Move (s : Session) : Session → Type 0 where
  skip_line :
      (rest : List Text)
      → s.producer ≡ Producer.reading
      → s.input ≡ ([] ∷ rest)
      → Move s (record s { input = rest })
  push_line :
      (line : Text) (rest : List Text)
      → s.producer ≡ Producer.reading
      → s.input ≡ (line ∷ rest)
      → is_empty line ≡ false
      → Move s
          (record s { input = rest; interface = push line s.interface; producer = Producer.pushed })
  notify_pushed :
      s.producer ≡ Producer.pushed
      → Move s (record s { producer = Producer.reading; consumer = wake s.consumer })
  close_input :
      s.producer ≡ Producer.reading
      → s.input ≡ []
      → Move s (record s { interface = finish s.interface; producer = Producer.closing })
  notify_closed :
      s.producer ≡ Producer.closing
      → Move s (record s { producer = Producer.stopped; consumer = wake s.consumer })
  sleep :
      s.consumer ≡ Consumer.checking
      → is_ready s.interface ≡ false
      → Move s (record s { consumer = Consumer.asleep })
  take_command :
      (line : Text) (i : Interface)
      → s.consumer ≡ Consumer.checking
      → is_ready s.interface ≡ true
      → try_get s.interface ≡ Taken.command line i
      → Move s (record s { interface = i; consumer = Consumer.working line })
  leave :
      s.consumer ≡ Consumer.checking
      → is_ready s.interface ≡ true
      → try_get s.interface ≡ Taken.over
      → Move s (record s { consumer = Consumer.ended })
  process :
      (line : Text)
      → s.consumer ≡ Consumer.working line
      → Move s (record s { consumer = Consumer.checking; processed = s.processed ++ line ∷ [] })

-- Also what comes from outside: SIGINT, once or more often, and spurious wake-ups.
pub data Step (s : Session) : Session → Type 0 where
  move : (t : Session) → Move s t → Step s t
  interrupt : Step s (record s { interface = finish s.interface; handler = Handler.running })
  notify_interrupted :
      s.handler ≡ Handler.running
      → Step s (record s { handler = Handler.returned; consumer = wake s.consumer })
  wake_spuriously :
      s.consumer ≡ Consumer.asleep → Step s (record s { consumer = Consumer.checking })

pub data Reaches (lines : List Text) : Session → Type 0 where
  here : Reaches lines (started lines)
  step : (s t : Session) → Reaches lines s → Step s t → Reaches lines t

-- The lines that userInputThread does not skip.
unfoldable pub commands : List Text → List Text
commands [] = []
commands ([] ∷ lines) = commands lines
commands ((c ∷ line) ∷ lines) = (c ∷ line) ∷ commands lines

-- The command that the consumer has taken and not done yet.
abbrev pub in_hand : Consumer → List Text
in_hand (Consumer.working line) = line ∷ []
in_hand _ = []
