-- ===== src/Roles/Ladder.antt =====
-- roles.py: the ladder of roles, and who may spawn whom.
use claude_swarm.Prelude.{
  ℕ, String, Bool, true, false, List, [], ◌∷◌, ◌↔◌, ◌≡◌, arith, Comparable, nat_beq, contains,
  string_eq, Option, none, some, ◌==◌, if◌then◌else◌,
}

pub data RoleKind : Type 0 where
  meta_supervisor supervisor lead agent ephemeral_agent dynamic_workflow : RoleKind

abbrev kind_index : RoleKind → ℕ
kind_index meta_supervisor = 0
kind_index supervisor = 1
kind_index lead = 2
kind_index agent = 3
kind_index ephemeral_agent = 4
kind_index dynamic_workflow = 5

unfoldable pub kind_beq : RoleKind → RoleKind → Bool
kind_beq a b = nat_beq (kind_index a) (kind_index b)

pub kind_beq_iff : (a b : RoleKind) → (kind_beq a b ≡ true) ↔ (a ≡ b)
unfolding kind_beq
kind_beq_iff a b = ground arith

instance abbrev pub kind_eq : Comparable RoleKind
kind_eq = record { same = kind_beq; same_iff = kind_beq_iff }

-- `_SPAWNABLE`, a set for each rung.
abbrev pub spawnable : RoleKind → List RoleKind
spawnable meta_supervisor = supervisor ∷ []
spawnable supervisor = lead ∷ agent ∷ ephemeral_agent ∷ dynamic_workflow ∷ []
spawnable lead = agent ∷ ephemeral_agent ∷ dynamic_workflow ∷ []
spawnable agent = ephemeral_agent ∷ []
spawnable ephemeral_agent = []
spawnable dynamic_workflow = agent ∷ ephemeral_agent ∷ []

pub record Role : Type 0 where
  pub kind : RoleKind
  pub name : String
  pub max_delegation_depth : ℕ
  pub perpetual : Bool
  pub opens_pr : Bool

unfoldable pub can_spawn : Role → RoleKind → Bool
unfolding kind_beq
can_spawn role child = contains child (spawnable role.kind)

-- The factories, with the name of the instance; descriptions are left out.
abbrev pub new_meta_supervisor : String → Role
new_meta_supervisor name = record {
  kind = meta_supervisor;
  name = name;
  max_delegation_depth = 4;
  perpetual = true;
  opens_pr = false;
}

abbrev pub new_supervisor : String → Role
new_supervisor name = record {
  kind = supervisor;
  name = name;
  max_delegation_depth = 3;
  perpetual = true;
  opens_pr = false;
}

abbrev pub new_lead : String → Role
new_lead name = record {
  kind = lead;
  name = name;
  max_delegation_depth = 2;
  perpetual = false;
  opens_pr = true;
}

abbrev pub new_agent : String → Role
new_agent name = record {
  kind = agent;
  name = name;
  max_delegation_depth = 1;
  perpetual = false;
  opens_pr = true;
}

abbrev pub new_ephemeral_agent : String → Role
new_ephemeral_agent name = record {
  kind = ephemeral_agent;
  name = name;
  max_delegation_depth = 0;
  perpetual = false;
  opens_pr = false;
}

abbrev pub new_dynamic_workflow : String → Role
new_dynamic_workflow name = record {
  kind = dynamic_workflow;
  name = name;
  max_delegation_depth = 2;
  perpetual = false;
  opens_pr = true;
}

-- A later role of the same name would replace an earlier one.
unfoldable pub role_named : String → List Role → Option Role
role_named name [] = none
role_named name (r ∷ roles) =
    let later = role_named name roles in
    elim later [ some s ↦ some s | none ↦ if r.name == name then some r else none ]

abbrev pub default_ladder : List Role
default_ladder =
    new_meta_supervisor "meta"
    ∷ new_supervisor "dispatch"
    ∷ new_lead "lead"
    ∷ new_agent "agent"
    ∷ new_ephemeral_agent "ephemeral"
    ∷ new_dynamic_workflow "workflow"
    ∷ []
