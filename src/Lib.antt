-- ===== src/Lib.antt =====
-- QuickDesk, the desktop client of a remote desktop system, in C++ with Qt. This library models the
-- parts of it that keep state of their own and decide something.
--
-- The program's parts, and how they interact:
--   The program drives a host and a client process. ProcessManager starts, stops and restarts both, the
--   host as a child or as a service behind two pipes. NativeMessaging frames the JSON messages of such
--   a process. ClientManager takes those of the client process: it keeps the connections to the remote
--   hosts, owns FileTransferQueue, which reads the messages about files and asks for uploads, downloads
--   and their cancellation, and SharedMemoryManager, which reads the video frames that the process
--   leaves in shared memory.
--   Other programs drive the client through a local API: WebSocketApiServer takes their requests and
--   asks SecurityManager whether ApiHandler may see them; a risky call of an agent waits in
--   TrustHandler for the user; OcrCache keeps the texts read off the screen. ConnectionListModel
--   lists the open connections, and PresetManager takes in what the server announces.
--
-- Which file models which part (all under QuickDesk/src):
--   Transfer    manager/FileTransferQueue.cpp and .h. Data: Task, the queue's fields, signals and timers.
--               Sessions, Uploads, Cancel, Messages, Views: the methods, by their own names. Steps: the
--               public methods, the messages and the timers as one machine (`step`, `run`). Invariant,
--               Finality, Retired, Remembered, Duplicates, Held, Blocked, Dispatch, Roots, Rooted, Paths:
--               what holds of it. The theorem of Paths assumes what QDir::relativeFilePath
--               answers for a file that is not within the directory.
--   Framing     manager/NativeMessaging.cpp. Stream: encodeMessage, parseBuffer, onReadyRead. Transport:
--               sendMessage, isReady, onProcessError. Chunks: the round trip. Recovery: malformed
--               payloads. Wrap: the largest
--               length fields.
--   Security    api/SecurityManager.cpp. Access: tokens, devices, methods, dangerous operations. Limits:
--               checkRateLimit and the session timeouts. AccessLaws, Window, Clients, Sessions: what
--               holds of them.
--   Gateway     api/WebSocketServer.cpp, with logAudit's signals. State: the fields. Guard:
--               onTextMessageReceived and authenticateClient. Events: the other slots, and all of them
--               as one machine. Passage: which requests pass. Members,
--               Histories, Told: what holds of all its histories.
--   Trust       api/TrustHandler.cpp. Handler: the calls and the machine of their steps. Liveness, Stop,
--               Approval: what holds of it.
--   Cache       api/OcrCache.cpp. Store: the methods. Order: what holds of them.
--   Connections viewmodel/connectionlistmodel.cpp. Model: the methods. Rows, States: what holds of them.
--   Preset      manager/PresetManager.cpp. Version: isVersionLower. Manager: timers and answers. Order,
--               StrictOrder, Loading: what holds of them.
--   Frames      manager/SharedMemoryManager.cpp. Region: the header's checks and the planes. Manager:
--               the handles. Planes, Locks: what holds of them.
--   Processes   manager/ProcessManager.cpp and .h, common/ProcessStatus.h. Child: QProcess and what both
--               halves share. Client: the client process, all its calls, signals and timers as one
--               machine. Host, HostEvents: the same for the host, in both launch modes. ClientBounds,
--               ClientRuns, ClientStages, ClientLaunches, ClientLoop, ClientRest, ClientStale,
--               HostBounds, HostHandlers, HostRuns, HostStop, HostSignals, HostRest, HostPending: what
--               holds of them.
--   Clients     manager/ClientManager.cpp and .h. State: the connections. Commands: the messages to one
--               connection. Lifecycle: how connections come and go. Notices: the messages that tell of
--               one. Transfers: the list of connections and the file transfers. Machine: all calls as
--               one machine over Transfer's queue and Frames' handles. Wired, Changes, Handlers,
--               Losses, Listings, ListedSessions, FileSessions, Histories: the invariant of the two
--               maps and of the sessions. Routing: what follows from it.
--   Base        shared vocabulary: tests, lists, keys, dictionaries, counting, integers.
--
-- How the code is modelled:
--   A method takes the object's state and returns the new one; signals, timers, commands and socket
--   writes are appended to lists in it, in the order of the code. Names are the code's, in snake case.
--   A text that the code only compares with fixed texts (Task::status, Task::direction) is a data type.
--   The progress of a transfer is a fraction of integers, without the rounding of double. Translated
--   texts stand in English. Handlers of changed() and of other signals do not call back into the
--   object that emits them, but for ClientManager's slots for the queue's commands: these run when the
--   queue's call has returned, which is after its last command. wireKey is the code's own text, joined
--   by NUL.
--   What comes from Qt or the system is a parameter or an argument: the answers of QFileInfo and QDir,
--   fresh identifiers, QString::toLower, peer addresses, the clock, the count that a write returns,
--   what QSharedMemory shows, QString::split and toInt. QJsonDocument is the record `Json`, with the
--   law that a written object reads back. ApiHandler::handleRequest is symbolic. A socket's number
--   stands for one connection.
--   A QProcess is its state and its pending escalation timers. A signal of it is enabled by its state
--   (`can_emit`); one that is destroyed while it starts still signals how it ends (`Parting`). Pipes
--   that have been replaced are silent. `Machine` holds the answers of the file system and of the
--   service manager while a call runs. isReady is an argument of the calls that ask it.
--   Connection identifiers are a parameter, from the counter to a text; the theorems that need it say
--   that different counters have different texts. The native process may list any connections whose
--   identifiers were issued, each once. The order of the keys of a QMap is one too.
--   Sizes in quint32 wrap as in the code (Framing.Stream, Frames.Region). The counters of clients and
--   of confirmations are taken not to pass the largest int, and the product of seconds and 1000 in
--   setSessionTimeoutSecs not to overflow.
--   Loops are recursion on the list that they walk. parseBuffer alone takes fuel, one unit for a round,
--   and answers none where it runs out: a buffer needs one round for each frame in it and one to find
--   that none is left, but for the length fields of Framing.Wrap. The loop of isVersionLower is given as many rounds as the code's bound.
--
-- What is not modelled: of ProcessManager the destructor, the search for executables and the paths; of
-- ClientManager the performance statistics, the route and saved frames; the host, account and device
-- managers, ApiHandler and the services behind it, the recorder, the databases, the QML interface and its glue; the text of audit
-- entries; the address and headers of PresetManager's request; the other programs of the repository
-- (SignalingServer, WebClient, quickdesk-android, quickdesk-mcp, quickdesk-skill-host,
-- quickdesk-virtual-display); and QuickDesk/base/qaesencryption, a copy of another project's library.
pub mod Base
pub mod Transfer
pub mod Framing
pub mod Security
pub mod Gateway
pub mod Trust
pub mod Cache
pub mod Connections
pub mod Preset
pub mod Frames
pub mod Processes
pub mod Clients
