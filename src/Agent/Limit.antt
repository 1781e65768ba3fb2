-- ===== src/Agent/Limit.antt =====
-- The recursion limit of agent/graph.py is never what ends a run.
use e_commerce_agent.Base.{
  ℕ, zero, suc, ◌+◌, ◌*◌, ◌-◌, ◌≤◌, ◌≡◌, refl, Option, none, some, inl, inr, Option-cases, arith,
}
use e_commerce_agent.Errors.{Result, ok, err}
use e_commerce_agent.Exec.{outcome_cases}
use e_commerce_agent.Platform.{Platform}
use e_commerce_agent.World.{World}
use e_commerce_agent.Agent.State.{
  AgentState, AssistantTurn, Kit, Limits, advanced, interrupted, Resumption,
}
use e_commerce_agent.Agent.Graph.{
  Node, scope, metrics, model, tools, validate, plan, approval, next_node, Halt, finished, stopped,
  recursion_limit, run_node, run_graph,
}
use e_commerce_agent.Agent.Scope.{scope_node, metrics_node, scope_resolved, scope_chosen}
use e_commerce_agent.Agent.Model.{model_node, ask_model, take_turn, system_prompt}
use e_commerce_agent.Agent.Tools.{tool_node}
use e_commerce_agent.Agent.Reflect.{validation_node, reflect, validated, give_up_validation}

-- How many nodes can still run from a node on, with this many iterations left.
abbrev steps_left : ℕ → Node → ℕ
steps_left left scope = left * 2 + 5
steps_left left metrics = left * 2 + 4
steps_left left model = left * 2 + 3
steps_left left tools = left * 2 + 4
steps_left left validate = left * 2 + 4
steps_left left plan = 2
steps_left left approval = 1

module _ (p : Platform) (kit : Kit p) (limits : Limits) where
  -- What a node that returned has done to the count of iterations.
  scope_node-iteration :
      (c : Option Resumption) (s s' : AgentState) (w w' : World p)
      → scope_node p c s w ≡ (ok (advanced s'), w')
      → s'.iteration ≡ s.iteration
  unfolding scope_node scope_chosen scope_resolved
  scope_node-iteration c s s' w w' h = ground arith

  metrics_node-iteration :
      (s s' : AgentState) (w w' : World p)
      → metrics_node p kit s w ≡ (ok (advanced s'), w')
      → s'.iteration ≡ s.iteration
  unfolding metrics_node
  metrics_node-iteration s s' w w' h = ground arith

  take_turn-iteration :
      (turn : AssistantTurn) (s s' : AgentState) (w w' : World p)
      → take_turn p kit limits s turn w ≡ (ok (advanced s'), w')
      → s'.iteration ≡ s.iteration + 1
  unfolding take_turn
  take_turn-iteration turn s s' w w' h = ground arith

  ask_model-iteration :
      (s s' : AgentState) (w w' : World p)
      → ask_model p kit limits s w ≡ (ok (advanced s'), w')
      → s'.iteration ≡ s.iteration + 1
  unfolding ask_model
  ask_model-iteration s s' w w' h = elim (outcome_cases (system_prompt p kit limits s w)) [
    | inr (e, v, failed) ↦ absurd (ground arith)
    | inl (prompt, v, read) ↦ elim (outcome_cases (kit.complete s.messages prompt v)) [
      | inr (e, u, failed) ↦ absurd (ground arith)
      | inl (turn, u, answered) ↦ ground (arith, take_turn-iteration turn s s' u w')
    ]
  ]

  model_node-iteration :
      (s s' : AgentState) (w w' : World p)
      → model_node p kit limits s w ≡ (ok (advanced s'), w')
      → (s'.iteration ≡ s.iteration + 1) × (s'.iteration ≤ limits.max_iterations)
  unfolding model_node
  model_node-iteration s s' w w' h = ground (arith, ask_model-iteration s s' w w')

  tool_node-iteration :
      (s s' : AgentState) (w w' : World p)
      → tool_node p kit s w ≡ (ok (advanced s'), w')
      → s'.iteration ≡ s.iteration
  unfolding tool_node
  tool_node-iteration s s' w w' h = ground arith

  validation_node-iteration :
      (s s' : AgentState) (w w' : World p)
      → validation_node p kit limits s w ≡ (ok (advanced s'), w')
      → s'.iteration ≡ s.iteration
  unfolding validation_node reflect validated give_up_validation
  validation_node-iteration s s' w w' h = ground arith

  -- A node that returned leaves fewer nodes to run.
  run_node-steps :
      (node n : Node) (c : Option Resumption) (s s' : AgentState) (w w' : World p)
      → run_node p kit limits node c s w ≡ (ok (advanced s'), w')
      → next_node node s' ≡ some n
      → suc (steps_left (limits.max_iterations - s'.iteration) n)
        ≤ steps_left (limits.max_iterations - s.iteration) node
  unfolding run_node
  run_node-steps scope n c s s' w w' h e = ground (arith, scope_node-iteration c s s' w w')
  run_node-steps metrics n c s s' w w' h e = ground (arith, metrics_node-iteration s s' w w')
  run_node-steps model n c s s' w w' h e = ground (arith, model_node-iteration s s' w w')
  run_node-steps tools n c s s' w w' h e = ground (arith, tool_node-iteration s s' w w')
  run_node-steps validate n c s s' w w' h e = ground (arith, validation_node-iteration s s' w w')
  run_node-steps plan n c s s' w w' h e = ground arith
  run_node-steps approval n c s s' w w' h e = absurd (ground arith)

  steps_left-pos : (left : ℕ) (node : Node) → 1 ≤ steps_left left node
  steps_left-pos left scope = omega arith
  steps_left-pos left metrics = omega arith
  steps_left-pos left model = omega arith
  steps_left-pos left tools = omega arith
  steps_left-pos left validate = omega arith
  steps_left-pos left plan = omega arith
  steps_left-pos left approval = omega arith

  run_graph_ends :
      (limit : ℕ) (node : Node) (c : Option Resumption) (s : AgentState) (w : World p)
      → steps_left (limits.max_iterations - s.iteration) node ≤ limit
      → (end : Result Halt × World p) × (run_graph p kit limits limit node c s w ≡ some end)
  unfolding run_graph
  run_graph_ends zero node c s w h =
      absurd (omega (arith, steps_left-pos (limits.max_iterations - s.iteration) node))
  run_graph_ends (suc limit) node c s w h =
      elim (outcome_cases (run_node p kit limits node c s w)) [
        | inr (e, v, failed) ↦ ((err e, v), rw failed refl)
        | inl (interrupted value, v, paused) ↦ ((ok (stopped node s value), v), rw paused refl)
        | inl (advanced s', v, ran) ↦ elim (Option-cases (next_node node s')) [
          | inl over ↦ ((ok (finished s'), v), rw ran (rw over refl))
          | inr (n, next) ↦
              let (end, ends) =
                run_graph_ends limit n none s' v
                  (omega (arith, h, run_node-steps node n c s s' w v ran next)) in
              (end, rw ran (rw next ends))
        ]
      ]

  -- A run of the graph always ends before the limit on its nodes that `run` sets: whatever the model
  -- answers and the tools return, and from whichever node and count of iterations it starts, it
  -- reaches the end, stops for the merchant, or a node raises.
  pub run_graph_returns :
      (node : Node) (c : Option Resumption) (s : AgentState) (w : World p)
      → (end : Result Halt × World p) × (run_graph p kit limits (recursion_limit limits) node c s w
          ≡ some end)
  run_graph_returns node c s w =
      run_graph_ends (recursion_limit limits) node c s w (below_limit s.iteration node)
    where
      below_limit :
          (done : ℕ) (node : Node)
          → steps_left (limits.max_iterations - done) node ≤ recursion_limit limits
      below_limit done scope = omega arith
      below_limit done metrics = omega arith
      below_limit done model = omega arith
      below_limit done tools = omega arith
      below_limit done validate = omega arith
      below_limit done plan = omega arith
      below_limit done approval = omega arith
