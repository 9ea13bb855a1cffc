-- ===== src/Api.antt =====
-- internal/api: the HTTP interface.
pub mod Response
pub mod Handler
pub mod Edge
pub mod Changes
