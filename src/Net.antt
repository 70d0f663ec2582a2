-- ===== src/Net.antt =====
-- The network part: src/net and include/tzzero/net.
pub mod Acceptor
pub mod Connection
pub mod EventLoopThread
pub mod EventLoopThreadPool
pub mod Service
pub mod TcpServer
