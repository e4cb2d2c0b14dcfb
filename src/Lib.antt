-- ===== src/Lib.antt =====
-- wsfs-core: a file system over WebSocket. A client turns file operations into requests, one binary
-- message each, with a mark of one byte; the server runs each request on its storage and answers
-- under the same mark, by any number of partial messages and a final one. Paths below are those of
-- the repository.
--
-- Prelude: shared names, Boolean tests and lists over native numbers, Go's int64.
-- Wire: src/internal/share/wsfsprotocol. Wire/Bytes are the integers of encoding/binary, little
--   endian; Wire/Source and Wire/Sink are io.Reader and io.Writer as the codec uses them; Wire/Str is
--   string.go; Wire/Codes is const.go. Wire/Attr, IoCmd, RangeCmd, PathCmd, LinkCmd and Rsp are the
--   structs of struct.go with the portable codec struct.gen.go: GetXRequiredSize is get_x_required_size,
--   WriteXToWriter is write_x, ReadXFromReader is read_x. Wire/Command has the requests by their codes,
--   Wire/Command/Decode the switch of src/internal/server/wsfs/commandCalls.go and dispatchCommand of
--   commands.go. Wire/Response are the structs of the answers together. Wire/Amd64 is
--   struct_amd64.gen.go, the variant of the codec for that machine, by the same names with _amd64 behind.
-- Util: src/internal/util, buffer.go and url.go; the string tests are package strings'.
-- Server: src/internal/server/wsfs. Server/Conn is the sending half of session.go (requireWrite,
--   writeDone, write, beginRsp) on a connection with a list of faults to come; Server/Session is the
--   descriptor table, newFD and the replies. The handlers of commands-unix.go take the connection and
--   the world in a Session: Server/FileCmds and ReadCmds those on open files, PathCmds those on paths,
--   AttrCmds those that set attributes; Server/XAttr are extended attributes of commands.go, with
--   normalizeXAttrPrefixes of handler.go. Server/Errno is the translation of errors and ignoringEINTR.
--   Server/Os is the operating system, a parameter. Server/Run dispatches a message to its handler:
--   serve is one round of readLoop, with the read limit that takeConn sets. Server/Answers states what a
--   handler owes its request.
--   Server/Streams are write streams: writeStream with its handlers, beside a Session. Server/Dirs has
--   cmdReadDir, cmdGetAttr and cmdReadLink, on the packages os, path and timeval as the parameter
--   Dirs; dir_command puts them before the rest of Server/Run.
-- Client: src/internal/client/session. Client.antt are the loops that sort messages by their marks
--   (readLoop) and put answers together (CmdRead, CmdReadAt, readXAttrData); Client/Session are marks and
--   one request's way out and back; Client/Request is what all commands have in common; FileCmds,
--   PathCmds, WriteCmds and XAttrCmds are the commands of commands.go, WriteStream is writeStream.go;
--   Client/LifeCycle is the state machine of session.go as a step relation, with the requests and
--   the goroutines of connections. The other end is a parameter, Remote; Client/Remote puts the server
--   there. Client/Listing parses listings.
-- Runs: the theorems at concrete inputs, on a small system.
--
-- A lock makes each step on the connection or the descriptor table atomic, so handlers run one after
-- the other here, while the server runs them as goroutines. A session's world is the state of the
-- system behind the system calls. Fuel: newFD tries as many candidates as there are open descriptors,
-- after which one must be free; the loop of readAllToBuffer has fuel for each byte of room, the loops
-- of Server/XAttr for each byte of the data; ignoringEINTR makes a call again at most Os.eintr_limit
-- times, the code without limit.
-- CmdWrite and CmdCopyFileRange of the client are on fuel too; newClientMark tries each of the 256
-- marks once, where the code goes on for ever without a free one. A command of the client runs here
-- without another one in between. A Read call is taken to hand out a byte at least while some are left;
-- by Grain it may hand out any number of them, and return the end with the last ones. A message beyond
-- the read limit ends in an error where the limit is.
--
-- Not modelled: locks, channels' capacities and buffer pools; logging and pings; cmdReadDirPlus
-- and the client that parses it. Server/Run takes the handlers of Server/Dirs, write streams and locks
-- as the parameter rest. Left out too are the registry of sessions; WebDAV, the web interface,
-- users and configuration.
pub mod Prelude
pub mod Wire
pub mod Util
pub mod Server
pub mod Client
pub mod Runs
