-- ===== src/Router.antt =====
-- router: which client a request is routed to. A router is a list of routes, a route a list of criteria;
-- the first route that a request matches decides.
pub mod Request
pub mod Criteria
pub mod Route
pub mod Config
pub mod Build
pub mod Groups
pub mod First
pub mod Decisions
pub mod Panics
pub mod Answers
pub mod Makes
pub mod Safe
pub mod SafeRoute
pub mod Ports
pub mod Make
pub mod Always
mod Examples
