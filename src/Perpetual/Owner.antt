-- ===== src/Perpetual/Owner.antt =====
-- perpetual.py: processes that take and leave the pidfile one after the other, and crash.
use claude_swarm.Prelude.{
  ℕ, Bool, true, false, List, [], ◌∷◌, Option, some, ◌≡◌, ◌≢◌, if◌then◌else◌, pos, nat_beq, Run,
  returns, raises,
}
use claude_swarm.Perpetual.Pidfile.{
  PidText, number, Signal, delivered, no_such_process, acquire, release,
}

-- The file, the processes, and which of them run a team.
pub record Machine : Type 0 where
  pub file : Option PidText
  pub probe : ℕ → Signal
  pub holds : ℕ → Bool

pub data ProcessEvent : Type 0 where
  starts : ℕ → ProcessEvent
  finishes : ℕ → ProcessEvent
  crashes : ℕ → ProcessEvent

abbrev pub set_at : {A : Type 0} → ℕ → A → (ℕ → A) → ℕ → A
set_at n a f m = if nat_beq m n then a else f m

abbrev pub started : ℕ → Machine → Run (Option PidText) (Unit {0}) → Machine
started n m (returns a file) = record m { file = file; holds = set_at n true m.holds }
started n m (raises e file) = record m { file = file }

unfoldable pub happen : ProcessEvent → Machine → Machine
unfolding acquire release
happen (starts n) m =
    let m' = record m { probe = set_at n delivered m.probe } in
    started n m' (acquire m'.probe n m'.file)
happen (finishes n) m = record m { file = release n m.file; holds = set_at n false m.holds }
happen (crashes n) m = record m {
  probe = set_at n no_such_process m.probe;
  holds = set_at n false m.holds;
}

unfoldable pub happen_all : List ProcessEvent → Machine → Machine
unfolding happen
happen_all [] m = m
happen_all (e ∷ es) m = happen_all es (happen e m)

-- A process that runs a team is alive, and the file names it.
abbrev pub IsOwner : Machine → Type 0
IsOwner m =
    (n : ℕ)
    → m.holds n ≡ true
    → (n ≢ 0) × (m.probe n ≡ delivered) × (m.file ≡ some (number (pos n)))

-- Process ids are positive.
abbrev pub IsProcess : ProcessEvent → Type 0
IsProcess (starts n) = n ≢ 0
IsProcess (finishes n) = n ≢ 0
IsProcess (crashes n) = n ≢ 0
