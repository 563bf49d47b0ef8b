-- ===== src/Api.antt =====
-- Package api (pkg/api/gen.go), which is generated from pkg/api/openapi.yaml: the types, the client and
-- the server wrapper.
pub mod Types
pub mod Wire
pub mod Requests
pub mod Calls
pub mod Responses
pub mod WithResponse
pub mod Wrapper
pub mod Routes
pub mod Mux
pub mod Table
pub mod Operation
pub mod Styled
pub mod Segments
pub mod Sent
pub mod Picked
pub mod Bound
pub mod Called
pub mod Journey
mod Tests
