-- ===== src/Agent/Graph.antt =====
-- `_build_graph` and `run` of agent/graph.py: the nodes, the edges and the limit on the nodes that one
-- call runs, which the graph library enforces.
use e_commerce_agent.Base.{ℕ, zero, suc, ◌+◌, ◌*◌, String, Option, none, some, List, [], ◌∷◌}
use e_commerce_agent.Base.Json.{Fields, end, field}
use e_commerce_agent.Errors.{Result, ok, err}
use e_commerce_agent.Exec.{Exec}
use e_commerce_agent.Platform.{Platform}
use e_commerce_agent.World.{World}
use e_commerce_agent.Agent.State.{
  AgentState, Kit, Limits, NodeResult, advanced, interrupted, Resumption,
}
use e_commerce_agent.Agent.Scope.{scope_node, metrics_node}
use e_commerce_agent.Agent.Model.{model_node}
use e_commerce_agent.Agent.Tools.{tool_node}
use e_commerce_agent.Agent.Reflect.{validation_node}
use e_commerce_agent.Agent.Decide.{plan_node, approval_node}

pub data Node : Type 0 where
  scope metrics model tools validate plan approval : Node

-- `_route_after_model`
abbrev pub route_after_model : AgentState → Node
route_after_model s = elim s.diagnosis [ none ↦ tools | some d ↦ validate ]

-- `_route_after_validation`
abbrev after_errors : List String → Node
after_errors [] = plan
after_errors (e ∷ es) = model

abbrev pub route_after_validation : AgentState → Node
route_after_validation s = after_errors s.validation_errors

-- `_route_after_plan`: an interaction that is not empty asks for approval.
abbrev ask_approval : Option Fields → Option Node
ask_approval none = none
ask_approval (some end) = none
ask_approval (some (field k v fs)) = some approval

abbrev pub route_after_plan : AgentState → Option Node
route_after_plan s = ask_approval s.interaction

-- The edges; `none` is END.
abbrev pub next_node : Node → AgentState → Option Node
next_node scope s = some metrics
next_node metrics s = some model
next_node model s = some (route_after_model s)
next_node tools s = some model
next_node validate s = some (route_after_validation s)
next_node plan s = route_after_plan s
next_node approval s = none

-- How a call of the graph ends, where it does not raise: at END, or stopped in a node.
pub data Halt : Type 0 where
  finished : AgentState → Halt
  stopped : Node → AgentState → Fields → Halt

-- `self._max_iterations * 3 + 12`
abbrev pub recursion_limit : Limits → ℕ
recursion_limit limits = limits.max_iterations * 3 + 12

module _ (p : Platform) (kit : Kit p) (limits : Limits) where
  unfoldable pub run_node : Node → Option Resumption → AgentState → Exec (World p) NodeResult
  run_node scope c s = scope_node p c s
  run_node metrics c s = metrics_node p kit s
  run_node model c s = model_node p kit limits s
  run_node tools c s = tool_node p kit s
  run_node validate c s = validation_node p kit limits s
  run_node plan c s = plan_node p kit s
  run_node approval c s = approval_node p c s

  abbrev follow :
      (Node → AgentState → World p → Option (Result Halt × World p))
      → Option Node
      → AgentState
      → World p
      → Option (Result Halt × World p)
  follow go none s w = some (ok (finished s), w)
  follow go (some n) s w = go n s w

  abbrev proceed :
      (Node → AgentState → World p → Option (Result Halt × World p))
      → Node
      → AgentState
      → Result NodeResult × World p
      → Option (Result Halt × World p)
  proceed go node s (err e, w) = some (err e, w)
  proceed go node s (ok (interrupted value), w) = some (ok (stopped node s value), w)
  proceed go node s (ok (advanced s'), w) = follow go (next_node node s') s' w

  -- From a node on; `none` means that the limit was reached. What `interrupt` returns is for the
  -- first node only.
  unfoldable pub run_graph :
      ℕ → Node → Option Resumption → AgentState → World p → Option (Result Halt × World p)
  unfolding run_node
  run_graph zero node c s w = none
  run_graph (suc limit) node c s w =
      proceed (λ n s' w'. run_graph limit n none s' w') node s (run_node node c s w)
