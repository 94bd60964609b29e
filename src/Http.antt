-- ===== src/Http.antt =====
-- internal/httpapi: the handlers and the middleware that stand between a request and the services.
pub mod Replies
pub mod Endpoints
pub mod Services
pub mod AuthHandlers
pub mod AdminHandlers
pub mod Handlers
pub mod Serve
pub mod Access
pub mod Allowed
pub mod SignedIn
mod Tests
