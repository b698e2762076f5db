-- ===== src/Api.antt =====
-- The HTTP API, src/arxdb/api.
pub mod Requests
pub mod Proposals
pub mod Server
pub mod Replies
pub mod Routes
