-- ===== src/Llm/Attempts.antt =====
-- How often `complete` of llm/client.py asks the model's service.
use e_commerce_agent.Base.{◌≡◌, ◌⊎◌, ℕ, suc, ◌+◌, ◌≤◌, ◌<◌}
use e_commerce_agent.Base.Json.{Json}
use e_commerce_agent.Errors.{Result}
use e_commerce_agent.Agent.State.{AssistantTurn}
use package.e_commerce_agent.Llm.{Codec}
use package.e_commerce_agent.Llm.Retry.{Classes}
use package.e_commerce_agent.Llm.Client.{Outcome, answer}
use package.e_commerce_agent.Llm.Transient.{IsTransient}

module _ (c : Codec) (classes : Classes) (service : ℕ → Json → Outcome) (request : Json) where
  abbrev pub answer_at : ℕ → Result AssistantTurn
  answer_at k = answer c (service k request)

  -- Of the n + 1 attempts that begin at `first`, the one at `last` is the last, and gives the result.
  pub record Attempted (n first : ℕ) (outcome : Result AssistantTurn × ℕ) : Type 0 where
    pub last : ℕ
    pub in_order : first ≤ last
    pub in_bounds : last ≤ first + n
    pub result : outcome ≡ (answer_at last, suc last)
    pub before : (k : ℕ) → first ≤ k → k < last → IsTransient c classes (service k request)
    pub settled : (last ≡ first + n) ⊎ (¬ IsTransient c classes (service last request))
