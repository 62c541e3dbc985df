-- ===== src/Roles/Tests.antt =====
-- Chains of the canonical ladder.
use claude_swarm.Prelude.{◌≤◌, ◌<◌, [], ◌∷◌, List, length, refl, arith}
use claude_swarm.Roles.Ladder.{
  Role, can_spawn, kind_beq, new_meta_supervisor, new_supervisor, new_lead, new_agent,
  new_ephemeral_agent, new_dynamic_workflow,
}
use claude_swarm.Roles.Chains.{IsChain, stop, spawn, IsChain-length}

abbrev deepest : List Role
deepest =
    new_supervisor "dispatch"
    ∷ new_lead "lead"
    ∷ new_dynamic_workflow "workflow"
    ∷ new_agent "agent"
    ∷ new_ephemeral_agent "ephemeral"
    ∷ []

deepest-IsChain : IsChain (new_meta_supervisor "meta") deepest
unfolding can_spawn kind_beq
deepest-IsChain = spawn (new_supervisor "dispatch") refl (
    spawn (new_lead "lead") refl (
      spawn (new_dynamic_workflow "workflow") refl
        (spawn (new_agent "agent") refl (spawn (new_ephemeral_agent "ephemeral") refl stop))))

IsChain-length_example : length deepest ≤ 5
IsChain-length_example = IsChain-length (new_meta_supervisor "meta") deepest deepest-IsChain

-- A chain that is permitted is deeper than its role's `max_delegation_depth`.
too_deep :
    IsChain (new_meta_supervisor "meta") deepest
    × ((new_meta_supervisor "meta").max_delegation_depth < length deepest)
too_deep = (deepest-IsChain, omega arith)
