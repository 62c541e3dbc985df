-- ===== src/Policy/Tests.antt =====
-- Routes and prices of concrete tasks and calls.
use claude_swarm.Prelude.{String, [], ◌∷◌, Option, none, ◌≡◌, refl, ℤ, pos, string_eq, nat_eq}
use claude_swarm.Json.{int}
use claude_swarm.Kanban.Task.{Task}
use claude_swarm.Kanban.Tests.{task_named}
use claude_swarm.Policy.Routing.{delegate_lead, route_task}
use claude_swarm.Policy.Cost.{CallTokens, price_call}

abbrev parse : String → Option ℤ
parse s = none

abbrev compound : Task
compound = record (task_named "a" []) { metadata = ("estimated_subtasks", int (pos 4)) ∷ [] }

compound_lead : (route_task parse 3 compound).route ≡ delegate_lead
unfolding route_task
compound_lead = refl

abbrev small : CallTokens
small = record {
  input_tokens = 800;
  cache_read_tokens = 0;
  cache_write_5m_tokens = 0;
  cache_write_1h_tokens = 0;
  output_tokens = 200;
}

small_price : price_call "haiku" small ≡ 1440000000
unfolding price_call
small_price = refl
