-- ===== src/Math.antt =====
-- src/math: the parts of the library that the protocol code rests on.
pub mod Alignment
pub mod Interval
