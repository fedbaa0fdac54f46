-- ===== src/Http.antt =====
-- spike/net/http: the texts of methods and statuses, the maps of fields, requests and
-- responses, the callbacks of the parsers and the receive loop of a session.
pub mod Method
pub mod Status
pub mod Fields
pub mod Request
pub mod Response
pub mod Parser
pub mod Session
mod Tests
