-- ===== src/Client/Process/Numbered.antt =====
-- What the process of a client sends, over its whole life.
use sis_op_ii.Common.{ℕ, suc, ◌+◌, ◌≤◌, ◌≡◌, ◌⊎◌, true, none, some, List, [], Text, length}
use sis_op_ii.Common.Int.{pos}
use sis_op_ii.Platform.{Platform}
use sis_op_ii.Server.State.{Send}
use sis_op_ii.Ports.{IsPort}
use sis_op_ii.Interface.{commands}
use sis_op_ii.Client.{Client}
use sis_op_ii.Client.Process.Typed.{AllTyped}
use sis_op_ii.Client.Process.{Meeting, Broadcast, Life, run_client}

-- The number stays or goes one up.
Advances : ℕ → Client → Type 0
Advances n c = (c.sequence_number ≡ pos n) ⊎ (c.sequence_number ≡ pos (suc n))

module _ {W : Type 0} ⦃p : Platform W⦄ where
  -- What some lines lead to, for a client whose next request has the number `n`.
  pub record Runs (lines : List Text) (n : ℕ) (r : Client × List (Send W)) : Type 0 where
    pub next : ℕ
    pub number : (r.0).sequence_number ≡ pos next
    pub from : n ≤ next
    pub to : next ≤ n + length lines
    pub typed : AllTyped lines n next r.1

  -- What the commands among some lines lead to; a client that is blocked has sent no request.
  pub record Lives (lines : List Text) (life : Life W) : Type 0 where
    pub runs : Runs (commands lines) 1 (life.client, life.requests)
    pub waiting :
        life.blocked ≡ true → (life.requests ≡ []) × ((life.client).sequence_number ≡ pos 1)

  -- What main of the client does, by its arguments.
  abbrev pub Process : List Text → Broadcast W → List Text → (ℕ → Meeting W) → Type 0
  Process argv search lines net =
      ((life : Life W) × (port : ℕ) × IsPort argv port
        × (run_client argv search lines net ≡ some life)
        × Lives lines life)
      ⊎ ((run_client argv search lines net ≡ none) × ((port : ℕ) → ¬ IsPort argv port))
