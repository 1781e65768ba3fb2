-- ===== src/Examples.antt =====
-- Concrete settings, and the theorems applied to them.
mod Setting
mod Ledger
mod Keys
mod Messages
mod Agent
mod Rows
mod Web
mod Feed
mod Turns
