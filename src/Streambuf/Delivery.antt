-- ===== src/Streambuf/Delivery.antt =====
-- What a reader of a well-behaved client delivers: the content of its records, without their headers and
-- padding, however the network cuts the bytes into pieces.
pub mod View
pub mod Steps
pub mod Headers
pub mod Refill
pub mod Passes
pub mod Collect
pub mod Frames
pub mod Bytes
pub mod Records
pub mod Ends
pub mod Stream
pub mod Cut
pub mod Torn
pub mod Foreign
pub mod Discarding
pub mod Starving
pub mod Strangers
