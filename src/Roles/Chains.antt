-- ===== src/Roles/Chains.antt =====
-- roles.py: chains of delegations.
use claude_swarm.Prelude.{ℕ, ◌≤◌, ◌<◌, true, List, [], ◌∷◌, length, ◌≡◌, arith}
use claude_swarm.Roles.Ladder.{
  RoleKind, meta_supervisor, supervisor, lead, agent, ephemeral_agent, dynamic_workflow, kind_beq,
  kind_eq, Role, can_spawn,
}

-- Each role of the list was spawned by the one before it, the first by `r`.
pub data IsChain : Role → List Role → Type 0 where
  stop : {r : Role} → IsChain r []
  spawn :
      {r : Role} (child : Role) {roles : List Role}
      → can_spawn r child.kind ≡ true
      → IsChain child roles
      → IsChain r (child ∷ roles)

-- How far a kind stands above the leaves.
abbrev pub rank : RoleKind → ℕ
rank meta_supervisor = 5
rank supervisor = 4
rank lead = 3
rank dynamic_workflow = 2
rank agent = 1
rank ephemeral_agent = 0

spawn-lower : (r : Role) (child : RoleKind) → can_spawn r child ≡ true → rank child < rank r.kind
unfolding can_spawn kind_beq
spawn-lower r child h = ground arith

-- A chain of permitted spawns is no longer than the rank of the role that it starts from, so at most 5, and
-- an agent's is at most 1.
pub IsChain-length : (r : Role) (roles : List Role) → IsChain r roles → length roles ≤ rank r.kind
IsChain-length r [] stop = omega arith
IsChain-length r (child ∷ roles) (spawn _ h c) =
    omega (arith, spawn-lower r child.kind h, IsChain-length child roles c)
