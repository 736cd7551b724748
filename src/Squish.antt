-- ===== src/Squish.antt =====
-- The Squish message base (api_sq.h and the sq_*.c files).
pub mod Header
pub mod Sqidx
pub mod BaseHeader
pub mod Xmsg
pub mod Area
pub mod Frame
pub mod FreeChain
pub mod Index
pub mod Pointers
pub mod Removal
pub mod Uid
pub mod Lock
pub mod Msg
pub mod Hash
pub mod Reduce
pub mod Read
pub mod Write
pub mod Misc
pub mod Kill
pub mod Open
pub mod Close
mod Tests
