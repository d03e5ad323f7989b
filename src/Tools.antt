-- ===== src/Tools.antt =====
-- The tools of Agent/tools/kv_tools.py and Agent/tools/image_tools.py, and the router and the
-- schemas of Agent/tool_registry.py.
pub mod Json
pub mod Python
pub mod Reply
pub mod Tx
pub mod TreeTx
pub mod Order
pub mod Context
pub mod Schema
pub mod Router
pub mod Submit
pub mod Quiet
pub mod Raising
pub mod Dispatch
mod Tests
