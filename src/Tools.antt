-- ===== src/Tools.antt =====
-- The tools of tools/builtin.py, the registry of tools/base.py and the client of tools/mcp.py.
pub mod Calculator
pub mod Registry
pub mod Reading
pub mod Remote
