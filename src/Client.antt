-- ===== src/Client.antt =====
-- Package client (pkg/client): the in-memory implementation, and the loop that loads every page.
pub mod Predicate
pub mod Meaning
pub mod Paging
pub mod Slices
pub mod InMemory
pub mod LoadAll
pub mod Response
pub mod Setup
pub mod Http
pub mod Remote
pub mod Received
pub mod Answered
pub mod Refines
pub mod Creates
pub mod Updates
pub mod Bulk
pub mod Lists
pub mod Queries
pub mod Decoded
pub mod Gathered
pub mod Entries
pub mod Replay
pub mod Searches
pub mod Views
pub mod Stored
pub mod Complete
pub mod FirstPage
pub mod UrlSamples
pub mod RemoteSamples
pub mod ConnectionSample
mod RemoteTests
mod ListTests
mod Tests
