-- ===== src/Connections/Router.antt =====
-- packages/connections_api/src/rca_connections_api/connections_router.py: the handlers over the
-- in-memory repository. The collaborators that the router is built with are `Env`: the secret
-- resolver, the probes and whether there are listeners. A listener's failure is logged and dropped
-- by the code, so a call of one is recorded and has no result.
pub mod Monad
pub mod Requests
pub mod Handlers
pub mod Effects
pub mod Invariant
pub mod Requested
pub mod Guarantees
pub mod Gate
pub mod Gaps
mod Tests
