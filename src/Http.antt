-- ===== src/Http.antt =====
-- The edge of the server: the guards and controllers of the modules' interfaces folders, the rules
-- for the bodies of requests, the views and cookies of responses, the exception filters and the
-- log.
pub mod Cookies
pub mod Requests
pub mod Views
pub mod Organizations
pub mod Members
pub mod Admin
pub mod Auth
pub mod Access
pub mod Acting
pub mod SignedIn
pub mod Removal
pub mod Sessions
pub mod Bodies
pub mod Failures
pub mod Logging
pub mod Logged
mod Tests
