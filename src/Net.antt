-- ===== src/Net.antt =====
-- spike/net: the event loop, channels, streams, hosts and the masks of IPv4 networks; and of
-- spike/coroutine the hooked calls and the table of file descriptors.
pub mod Mask
pub mod EventLoop
pub mod Stream
pub mod Hook
pub mod Host
pub mod Channel
pub mod Poller
pub mod Poll
pub mod Socket
pub mod Server
mod ServerTests
pub mod Fd
mod Tests
