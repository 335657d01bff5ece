-- ===== src/Lib.antt =====
-- Verification of a file transfer program over UDP: the Go-Back-N transport under src/logic, which carries
-- a message from a sender to a receiver, and the client and the server that use it.
--
-- How the program works. sendMessageGbn (src/logic/gbn/gbn.c) divides a message into packets
-- (packet.c), puts them on the launch battery, a ring of 1024 pads (launchBattery.c), registers the
-- message in the send table (sortingTable.c on hTable.c on ll.c) and signals the launcher thread
-- (launcher.c). The launcher sends the READY packets of the send window (window.c), sends the SENT ones
-- again when the timer (timer.c) rings, and on an acknowledgment marks pads ACKED, moves the window and
-- feeds the round trip estimate (networkSampler.c) that the timer waits by. The receiver, listenForData
-- (catcher.c), takes the packets of one message in order and answers each datagram with the index that
-- it expects next.
--
-- Above it, the client (client/controller.c) asks the father process of the server (server/main.c) for a
-- handler by a handshake, sends its command to that handler, a child process with a port and a semaphore
-- of its own, and sends or receives a file in chunks, each with an answer (dm_protocol.c).
--
-- Which file models which part:
--   Base          Boolean tests, list operations, Option as the effect of code that can fault, and
--                 integers over the native natural numbers
--   Wire          the bytes of a bool, a 32-bit int and a port on the host, and memcpy out of a buffer
--   Packet        gbn/packet.c: Header, Packet, serializePacket, deserializePacket, packetize
--   Message       dm_protocol/message.c: serializeMessage, deserializeMessage
--   Logger        logger/logger.c: logMsg, for any vsnprintf and fprintf
--   Singletons    the functions of gbn/launchBattery.c, networkSampler.c and launcher.c that hand out the one
--                 object of a kind
--   Release       the destructors of ll.c, hTable.c, sortingTable.c, packet.c, message.c and launchBattery.c, as
--                 the lists of the blocks that they free
--   LinkedList    dataStructures/ll.c: appendLL, getLL, popLL, lenLL
--   HashTable     dataStructures/hTable.c, with the values that an operation hands to free
--   SortingTable  gbn/sortingTable.c: the table under the bytes of the message id
--   NetworkSampler  gbn/networkSampler.c: the averages of round trip time and deviance
--   Timer         gbn/timer.c: the thread as a step for each return of its wait
--   SendWindow    gbn/window.c and isInWindow of gbn/launchBattery.c
--   LaunchBattery gbn/launchBattery.c: pads and addToLaunchBattery
--   Catcher       gbn/catcher.c: the receiver as a loop over a list of arrivals
--   Launcher      gbn/launcher.c, gbn/jammer.c and rtSignals/rtSignalChecker.c: the passes over the
--                 window, in Launcher/Events the handler of signals and that of acknowledgments, in
--                 Launcher/Start the start of the thread and its cleanup
--   Gbn           gbn/gbn.c: sendMessageGbn and recvMessageGbn
--   Link          gbn/launcher.c and gbn/catcher.c at the two ends of a network that loses, repeats and
--                 reorders datagrams, as a step relation, for one message
--   Protocol      dm_protocol/dm_protocol.h: commands, statuses, and texts in a payload
--   Session       dm_protocol/dm_protocol.c: sendMessageDMProtocol and receiveMessageDMProtocol, for a
--                 process that waits for letters and sends letters
--   FileTransfer  dm_protocol/dm_protocol.c: sendFileDMProtocol and receiveFileDMProtocol
--   Client        client/controller.c: doHandShake, doPut, doGet, doList, in Client/Socket the search for a
--                 port, in Client/Commands the command line with client/main.c
--   Server        server/main.c: assignHandler, doPut, doGet, and the rounds of the father and of a
--                 child; in Server/Listing doList, in Server/Setup main and the forks
--   Exchange      the client and the server together
-- The folder of a module holds what is shown of it, and its tests. A name is the source's name in
-- snake_case, for instance send_message_gbn for sendMessageGbn.
--
-- How state and operations correspond. A static or a singleton is a member of a record that an operation
-- takes and returns; the launcher's record holds battery, window, table, timer, estimates and the
-- queued signals. An operation runs under its locks, so it is one step. What a system call answers is an
-- argument: Attempt for a launch (getsockname, rand, sendto, clock_gettime), Arrival for recvfrom, and the
-- clock for acknowledgments. `none` in an Option is a fault of the C program, a null pointer that is
-- read, a copy beyond a block, a remainder by zero or a variable without a value. `negsuc 0` is -1.
--
-- Bounds. Bytes are natural numbers; an int goes through the wire as 32 bits in two's complement, low byte
-- first, the hash wraps at 2 ^ 32, the deviance of a sample is computed in 32 bits, and a time to wait that no int
-- can hold is a fault. Other ints are unbounded integers: an index stays below 2048, and a count below the
-- ring's length. The averages are exact, since the doubles hold eighths and quarters of values below
-- 2 ^ 50. All loops recurse on a list or on the number of rounds that the source computes
-- before the loop, so no fuel is needed.
--
-- A program of the application is a function from the letters that come in to the letters that go out,
-- with what it returns (Session.Run): it is done, it waits for a letter or a chunk that does not come, or it
-- has faulted. What open, read, readdir, socket, bind and fork answer are arguments there too.
--
-- Not modelled: allocation and release but where a freed block stays reachable (the values that the
-- table's operations free, the names of a closed directory) and in the destructors, the calls of logMsg,
-- printLL, the socket of the acknowledgments, and the test programs. A text that is
-- logged is read to its zero, since LOG_LEVEL is 3 and every message is printed. The letters of a session are whole
-- messages in order: how sendMessageGbn and recvMessageGbn carry one is the subject of Gbn, Link and Session/Carriage.
--
-- Two details of the system calls are left out: a datagram with index -1 that is not a first packet, before any
-- start of a message, is answered by listenForData through a socket that was never made, and Catcher gives the
-- answer as sent; and a bind on port 0, which the search reaches behind 65535, takes another port than 0.
--
-- Link is about one message on an empty battery, with no more packets than the pads less the window; its network may keep
-- every datagram for ever, and a loss is a datagram that it never hands over. The getsockname of the launches fails or
-- answers one port. Link/Live are the steps that need what the threads need: a queued signal, a launcher that
-- runs, a timer that is alive; the real-time signals of a thread are handled with the lowest number first.
pub mod Base
pub mod Wire
pub mod Packet
pub mod Message
pub mod Link
pub mod Logger
pub mod LinkedList
pub mod Singletons
pub mod Release
pub mod HashTable
pub mod SortingTable
pub mod NetworkSampler
pub mod Timer
pub mod SendWindow
pub mod LaunchBattery
pub mod Catcher
pub mod Launcher
pub mod Gbn
pub mod Session
pub mod FileTransfer
pub mod Protocol
pub mod Client
pub mod Server
pub mod Exchange
