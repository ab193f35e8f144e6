-- ===== src/AsPath.antt =====
-- nest/a-path.c and the AS path part of nest/attrs.h: operations on the AS_PATH attribute, a buffer
-- of segments, each a type byte, a count byte and that many 4-byte AS numbers.
pub mod Wire
pub mod Length
pub mod Prepend
pub mod Ends
pub mod Contains
pub mod Filter
pub mod Convert
pub mod Match
pub mod NetworkOrder
mod Tests
