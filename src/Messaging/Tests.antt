-- ===== src/Messaging/Tests.antt =====
-- Runs of the inboxes, and the theorems at a concrete directory.
use claude_swarm.Prelude.{String, [], ◌∷◌, none, ◌≡◌, refl, ok, arith, string_eq}
use claude_swarm.Messaging.Inbox.{
  Message, Directory, message, array, empty_body, new_message, file, read_raw, deliver, recv,
}
use claude_swarm.Messaging.Delivery.{IsBounded}

abbrev pub note : String → String → Message
note id to = new_message id 1 "planner" to "heartbeat" empty_body none

abbrev pub office : Directory
office = ("codex", array (message (note "1" "codex") ∷ [])) ∷ ("scout", array []) ∷ []

office-IsBounded : IsBounded 2 office
unfolding read_raw file
office-IsBounded = λ q. ground arith

drop_oldest : recv "codex" (deliver 1 (note "2" "codex") office) ≡ ok (note "2" "codex" ∷ [])
unfolding recv deliver file
drop_oldest = refl
