-- ===== src/Lib.antt =====
-- RemCmd is an SSH client with a terminal, written in Rust. This library models the parts of it that
-- decide something: what a connection may do next, which routes and commands are accepted, what is
-- sent to a proxy, which bytes of a server are believed, and how panes, transfers and selections
-- change.
--
-- The parts and their files, with paths from the root of the repository:
-- - Core: crates/remcmd-core/src/lib.rs and pty.rs. Profile.antt has `ConnectionProfile` with its
--   routes, Settings.antt `UpdateSettings`, `TransferSettings` and `TerminalSettings`, Pty.antt
--   `PtySize`.
-- - Ssh: crates/remcmd-ssh/src. Error.antt is error.rs, Session.antt the state machine of session.rs,
--   RemotePath.antt the functions of remote_path.rs, LocalPath.antt the `Path` of the standard library
--   that they use, Plan.antt and Plan/ProxyCommand.antt plan.rs,
--   Proxy/Socks5.antt and Proxy/Http.antt the two handshakes of proxy.rs, Segments.antt the ranges of
--   a download in sftp.rs, Scp.antt the paths and commands of scp.rs, RemoteFiles.antt the listings of
--   sftp.rs, Performance.antt the parser of performance.rs. Connection.antt has the commands and the
--   events of connection.rs, Connection/Worker.antt the worker with its cleanups,
--   Connection/Setup.antt `run_connection_plan` up to the connected shell, Connection/Loop.antt its
--   loop, Connection/Decisions.antt the decisions on host keys with every interleaving of the handles
--   and the worker, Connection/Files.antt the requests and the dispatch of remote_files.rs.
--   Transfers.antt has the events of transfer.rs and the plan of a download of transfer/plan.rs.
-- - Terminal: crates/remcmd-terminal/src. Cwd.antt is the OSC 7 parser of cwd.rs, Screen.antt and
--   Screen/Snapshot.antt are screen.rs.
-- - Pane: crates/remcmd-app/src/pane_layout.rs, the tree of panes of a tab.
-- - Sftp: crates/remcmd-app/src/app/sftp/state.rs. Browser.antt is `SftpBrowserState` with its
--   requests, Browser/Rows.antt the rows of its tree, Browser/Selection.antt the clicks,
--   Browser/Deletion.antt what a deletion takes and leaves, Browser/Breadcrumbs.antt the links of a
--   path, Browser/Requests.antt all calls on a browser, Task.antt one transfer, Queue.antt
--   `SftpTransferQueue`, Batch.antt the progress of a batch, TextFormat.antt `RemoteTextFormat`.
-- - TextEdit: crates/remcmd-app/src/text_edit.rs, offsets in bytes and in UTF-16 units.
-- - Update: crates/remcmd-update/src/lib.rs. Update.antt has the release that is offered, Manifest.antt
--   the checksums, Download.antt `receive_package` and `verify`.
-- - Tests: the theorems at concrete inputs.
-- - Prelude: texts, bytes, UTF-8, results, and lemmas on lists.
--
-- How they interact: a connection plan holds profiles of Core and is validated before a session
-- starts; its proxy is dialled by Proxy with the profile of the first step; the errors of all of them
-- are those of Ssh/Error. The terminal's parser gives the directory that the file browser opens, and
-- the transfers of the browser use the remote paths.
--
-- What a connection waits for is a script: the commands that arrive before an operation completes,
-- and its result. A turn of the loop is one branch of its `select!`, so every order of commands,
-- events and answers is a list of turns. The events are accepted up to a number, behind which their
-- receiver is dropped; what the worker does outside is a list of actions. The log is left out.
--
-- The program is built for Unix and for Windows, which differ in `Path::join` and `Path::parent`: the
-- host is an argument of what uses them. On Windows a destination with the verbatim prefix `\\?\` is
-- left out, and so is what the system makes of names such as "NUL" or of dots at their end.
--
-- How the code is translated: a text is the list of its characters, a byte string the list of its
-- bytes, and a `String` of cwd.rs its bytes. A method on `&mut self` returns the new value with its
-- result; a `Result` is `Result`, an `Option` is `Option`, and a panic is an outer `none`. Integers are
-- natural numbers, with the bounds of the source written out where an operation can meet them. The
-- asynchronous code of proxy.rs is a function of a stream: the bytes that the peer will send, the bytes
-- sent, and how many the peer takes before it closes. Loops over slices and texts recurse on the list,
-- and the decimal notation of a number has fuel for 20 digits, enough for the 64 bits of the largest
-- integers of the source. The loop over the rows of a tree has fuel for the entries within as many
-- levels as the longest path has characters, and ends within it.
--
-- Parameters stand for third-party code: `sha256` in Plan/ProxyCommand.antt and Update/Download.antt,
-- `base64` in Proxy/Http.antt, versions and JSON in Update.antt, the file system in
-- Ssh/Transfers.antt, and the clusters of a text in TextEdit.antt. Not modelled are the tasks and
-- channels of tokio, the calls of russh, the processes and files of the operating system, the
-- rendering of the user interface, and the translations.
mod Prelude
pub mod Core
pub mod Ssh
pub mod Terminal
pub mod Pane
pub mod Sftp
pub mod TextEdit
pub mod Update
mod Tests
