-- ===== src/ChatApi.antt =====
-- chat-api: the chat service.
pub mod RateLimit
pub mod Sql
pub mod Schema
pub mod Devices
pub mod Float
pub mod Services
pub mod Query
pub mod Rank
pub mod SubFilter
pub mod RankDevices
pub mod Tools
pub mod Declarations
pub mod Gemini
pub mod Handler
pub mod Server
