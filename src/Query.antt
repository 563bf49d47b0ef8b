-- ===== src/Query.antt =====
-- Package query (pkg/query): filters, orders and paging, their SQL text, and their wire forms.
pub mod Value
pub mod Filter
pub mod Order
pub mod Page
pub mod Json
pub mod Decode
pub mod Data
pub mod Params
pub mod Encode
pub mod RoundTrip
pub mod Total
pub mod Travel
pub mod Wrapper
pub mod Samples
mod Tests
