-- ===== src/Ssh/Proxy.antt =====
-- crates/remcmd-ssh/src/proxy.rs: the handshakes with a proxy on a connected TCP stream. The stream
-- is the bytes that the proxy will still send and those that it has been sent. `connect_tcp` and the
-- process of a ProxyCommand are outside of the model.
pub mod Stream
pub mod Socks5
pub mod Http
