-- ===== src/Access.antt =====
-- What stands before the services: the middleware of the API gateway (apps/api-gateway), the guard of
-- the auth service, and the interceptor of the wallet service.
pub mod Gateway
pub mod Interceptor
pub mod Tokens
mod Tests
