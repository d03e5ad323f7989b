-- ===== src/Client.antt =====
-- TreeDBSession and AgentDBClient of Agent/db_client.py.
pub mod Session
pub mod Protocol
pub mod State
pub mod Plain
pub mod Tree
pub mod Ending
pub mod Reading
pub mod Values
pub mod Sessions
pub mod Retries
pub mod Batches
mod Tests
