-- ===== src/Api.antt =====
-- app/api: the routes, the administrator's key and the correlation id of a request.
pub mod Auth
pub mod Correlation
pub mod Routes
pub mod Health
