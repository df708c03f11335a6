-- ===== src/Net.antt =====
-- src/net: the network layer.
pub mod Descriptor
pub mod Endpoint
pub mod Address
pub mod Os
pub mod Socket
pub mod Listener
pub mod Closing
pub mod Client
pub mod Conversions
pub mod Handle
pub mod Pipe
