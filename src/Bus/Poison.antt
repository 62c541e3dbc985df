-- ===== src/Bus/Poison.antt =====
-- bus.py: a task verb sent as a plain message.
use claude_swarm.Prelude.{◌≡◌, Result, err, Error, string_eq}
use claude_swarm.Messaging.Inbox.{deliver, push}
use claude_swarm.Messaging.Inbox
use claude_swarm.Bus.TaskBus.{Bus}

-- No result comes out, but an exception.
abbrev pub Fails : {A : Type 0} → Result A → Type 0
Fails r = (e : Error) × (r ≡ err e)
