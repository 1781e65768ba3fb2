-- ===== src/Agent.antt =====
-- agent/graph.py: the agent that diagnoses a product.
pub mod State
pub mod Scope
pub mod Model
pub mod Tools
pub mod Reflect
pub mod Decide
pub mod Diagnosis
pub mod Evidence
pub mod Graph
pub mod Run
pub mod Consent
pub mod Limit
