-- ===== src/Lib.antt =====
-- NetTransfer: finding devices on a local network and sending files between them over TLS.
--
-- The program has six parts, in src/core, src/gui, src and include.
-- * protocol (src/core/protocol.cpp, include/protocol.h): the binary messages, a header of 22 bytes with
--   a CRC-32 and seven kinds of payload. Here: Protocol (constants, enumerations and structures),
--   Protocol.Crc (crc32), Protocol.Header (serializeHeader, deserializeHeader, buildHeader),
--   Protocol.Offer and Protocol.Payload (the payload functions). A buffer is a list of numbers. The
--   deserializers run on a reader (Protocol.Reader) whose outcome is a value, a refusal (the source's
--   `return false`) or a fault (a read past the end of the memory given).
-- * discovery (src/core/discovery.cpp, include/discovery.h): the list of devices, kept from UDP
--   broadcasts and replies. Here: Discovery (DiscoveryService, its start and stop, the handler of
--   listenForPackages as `on_receive`, the timer's as `on_timer`), Discovery.Devices (the loops over the
--   list). Discovery.Reached is the relation of the states that the two handlers reach in any order.
-- * transfer (src/core/transfer.cpp, include/transfer.h): one file over one TLS connection, from
--   TransferSender (Transfer.Sender) to TransferReceiver (Transfer.Receiver). The asynchronous code is
--   a state machine: each state has a field `pending`, the operation whose completion it waits for, and
--   each completion handler is a function of the state and the completion, `on_...`, which gives the next
--   state and what was written or reported. Transfer.Receiver.Stream and Transfer.Sender.Chunks run
--   the handlers one after the other, on a stream whose reads all complete; Transfer.Complete joins the
--   two for the file, Transfer.Session for a whole connection, from the handshake to the
--   acknowledgement or, in Transfer.Session.Declined, to a refusal: what one side writes is what the
--   other reads. Transfer.Receiver.Machine is the relation of the receiver's steps, in any order;
--   Transfer.Receiver.Downloads chooses the folder.
-- * NetTransfer (src/core/NetTransfer.cpp, include/NetTransfer.h): owns the others, keeps the
--   configuration, and decides which peers are trusted, which is asked of it by the receiver
--   (`valid` in Transfer.Receiver). Here: App; its trust in App.Trust, its configuration in App.Stored,
--   its constructor, start, stop and sendFile, as they call the parts, in App.Run; what it answers a
--   receiver that has read an offer in App.Offers; the key and the certificate of ensureCertExists, and
--   getConfigPath, in App.Certificates. App.Machine is the relation of all its steps, with the parts,
--   the peers and the user, in any order.
-- * the window (src/gui/NetTransferBridge.cpp, src/gui/mainWindow.cpp, include/mainWindow.h): the
--   callbacks of NetTransfer become queued signals, and slots change the list, the log and the progress
--   bar. Here: Gui (signals and slots) and Gui.Sending (sending a file, by the button or by a drop; the
--   first run; closing).
-- * the programs (src/main.cpp, src/main_gui.cpp, src/launcher.cpp, src/uninstall_rules.cpp). Here:
--   Programs.Console (the menu of the console program, which no build file names), Programs.Progress
--   (when it prints progress), Programs.Firewall (the rules that are added and removed) and
--   Programs.Launcher (the path that is started).
--
-- Parameters stand for what is not part of the repository's own code: a hash (Transfer.Platform.Hash, for
-- OpenSSL's EVP functions, with the law that hashing piece by piece is hashing at once), operations on
-- paths (Transfer.Platform.Paths), nlohmann::json (App.Format), the results of sockets, files and the
-- TLS set-up (arguments, for a start the record App.Run.Surroundings), and Qt's conversions of strings,
-- its dialogs' answers and its percentage. A disk is a function from paths to contents; what it takes of
-- a chunk that is written is an argument, and all of it in Transfer.Complete and Transfer.Session. The
-- hash of a peer's certificate is an argument.
--
-- Numbers are natural numbers; 16-, 32- and 64-bit fields have their remainder written out where the
-- source converts. Loops over a list are structural. On fuel are: the hashing loop, with one round more
-- than the file has bytes; the sweep over the devices, with one round for each device; the receiver's
-- search for a port, with one round for each port up to TCP_PORT_MAX; the numbered file names, whose
-- search is `none` when its rounds run out; and the two drivers, `drive` and `serve`, with one round for
-- each handler.
--
-- Not modelled: the layout of the window, and the two drag handlers, which move a highlight only; what the
-- programs write to the console, and the processes and shell commands that they start; what OpenSSL does
-- to make a key and a certificate; the branches for Windows of getConfigPath and getDownloadsFolder, which
-- ask the system; mutexes, the strand and the io thread, whose handlers run one at a time
-- (while one blocks it, as the shutdown after a refusal does, App.Machine lets the others go on); asio and
-- nlohmann::json in third_party.
pub mod Base
pub mod Protocol
pub mod Discovery
pub mod Transfer
pub mod App
pub mod Gui
pub mod Programs
