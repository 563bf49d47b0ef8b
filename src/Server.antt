-- ===== src/Server.antt =====
-- Package server (pkg/server): the handlers of the REST API, over the interface of package crud.
pub mod Reply
pub mod Interface
pub mod Handlers
pub mod Statuses
pub mod Answers
pub mod Bulk
pub mod Ids
pub mod Rest
pub mod Backends
pub mod Metrics
pub mod Run
pub mod Quiet
pub mod Permitted
pub mod Measured
pub mod Hosted
pub mod Closing
mod Tests
