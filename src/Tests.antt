-- ===== src/Tests.antt =====
-- The theorems at concrete inputs, and runs of the model.
mod CoreTests
mod SshTests
mod ProxyTests
mod TerminalTests
mod PaneTests
mod BrowserTests
mod SftpTests
mod TransferTests
mod TextEditTests
mod PerformanceTests
mod ConnectionTests
mod UpdateTests
