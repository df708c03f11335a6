-- ===== src/Tests.antt =====
-- The theorems at concrete connections and bytes.
pub mod Serving
pub mod Wire
pub mod Sent
pub mod Values
pub mod Bounds
pub mod Accepted
pub mod Sessions
pub mod Systems
pub mod Nets
pub mod Broken
pub mod Others
pub mod Random
pub mod Listening
pub mod Destroyed
pub mod Pipes
pub mod Searching
pub mod Lookups
