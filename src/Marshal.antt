-- ===== src/Marshal.antt =====
-- net/marshall.h: packing values into a PackBuffer and unpacking them again.
--
-- The build is that of the first branch of the byte-order macros, x86 and x86-64: XHTONS, XHTONL and
-- XHTONLL are empty, and an integer lies in memory with its lowest byte first.
pub mod Outcome
pub mod Bytes
pub mod Pack
pub mod Unpack
pub mod Emit
pub mod Parse
pub mod Safe
pub mod Stream
pub mod RoundTrip
pub mod Ordered
pub mod Unordered
pub mod Marshallable
pub mod ByteOrder
mod Tests
