-- ===== src/Net.antt =====
-- net/: the buffer of a connection, the timer, the time wheel, descriptor events, and the reactor.
pub mod TcpBuffer
pub mod Timer
pub mod TimeWheel
pub mod FdEvent
pub mod Reactor
pub mod CoroutineHook
pub mod TcpConnection
pub mod IoThread
pub mod TcpClient
pub mod TcpServer
mod Tests
