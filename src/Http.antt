-- ===== src/Http.antt =====
-- HttpServer/src/http: requests, responses, the parser and the server.
pub mod Request
pub mod Buffer
pub mod Context
pub mod Response
pub mod Server
mod Examples
