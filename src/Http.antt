-- ===== src/Http.antt =====
-- acid/http: the dispatch of requests, and the messages.
pub mod Servlets
pub mod Texts
pub mod Names
pub mod Headers
pub mod Requests
pub mod Responses
