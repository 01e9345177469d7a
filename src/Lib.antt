-- ===== src/Lib.antt =====
-- The chat server of LanChat Next (src/server, protocol/message_types.h) and parts of the program that
-- it replaces (legacy/), as functions on explicit state. Paths are from the root of the repository.
--
-- The program. A client sends frames, a length of four bytes and a JSON text, over TCP. TcpServer
-- accepts connections and keeps an AsyncSession for each in a SessionPool; a session takes the texts
-- out of its read buffer with FrameCodec, limits their rate and hands them to MessageRouter, whose
-- handlers work on the repositories of a Database and on the PresenceManager, and deliver texts to
-- sessions, where they wait in the write queue. One thread runs all of this, so that a run is a
-- sequence of events that are handled one after the other.
--
-- The files, and the code that they model:
--   Prelude, Prelude/*    shared notation: tests, int and int64_t, lists, code that may throw, texts
--   Protocol              protocol/message_types.h: MsgType, toInt, fromInt
--   Records               the structures UserInfo, StoredMessage, ChannelInfo, FriendRequestRecord
--   Json                  the values of src/server/vendor/mini_json.hpp
--   Json/Parser, Json/Printer
--                         its parser and its serializer
--   ProtocolJson          ProtocolJson.h
--   Bcrypt, PasswordHash  src/server/vendor/lanchat_bcrypt.hpp and sha256.hpp
--   Env                   what the server calls and does not implement (below)
--   FrameCodec            src/server/src/FrameCodec.cpp, and the read loop of AsyncSession.cpp
--   AsyncSession          src/server/src/AsyncSession.cpp: one session and its write queue
--   SessionPool           src/server/src/SessionPool.cpp
--   PresenceManager       src/server/src/PresenceManager.cpp
--   Database              src/server/src/db/Database.cpp; Database/Schema: open, close, migrate
--   RowFields             asInt, asInt64, asString, asBool of the repositories
--   MessageRepository, UserRepository, ChannelRepository, FriendRepository
--                         src/server/src/db/*Repository.cpp
--   Server                the state that the handlers share, and the delivery to a session
--   Router, Router/*      src/server/src/MessageRouter.cpp: every handler, and route
--   TcpServer             src/server/src/TcpServer.cpp, and the handlers of asio's events
--   LegacyMigrator        src/server/src/db/LegacyMigrator.cpp
--   LanChatServer         src/server/src/LanChatServer.cpp and main.cpp, and the constructors of the
--                         repositories
--   LegacyProtocolCodec, LegacyPasswordHash
--                         legacy/legacy-common/LegacyProtocolCodec.h and
--                         legacy/original-server/PasswordHash.h
--   Samples, Samples/*    concrete data, and the theorems applied to it
-- The children of a module that are not named here hold proofs about it.
--
-- State and exceptions. A handler is a function from the state to a result and a state; an exception
-- is a result, and what was written before it stays written. The session objects are on a heap that
-- the pool and the handlers share. Names are those of the source in lower case with _ between the
-- words.
--
-- Parameters (Env): the conversions between doubles and texts, the bcrypt library, the numbers that
-- the random generators draw, the order that std::sort leaves among equal timestamps, and the clocks.
-- A theorem that needs something of them says so: that the sort sorts (Sorts), what crypt(3) promises
-- (IsCrypt). The SQL statements of Database and FriendRepository are executed as they are written, on
-- lists of rows, which SELECT yields in their order; the SELECT of sendRequest looks the pair of the
-- sender up first, as SQLite does with its index.
--
-- Bounds and fuel. An int is read from a 64-bit value with its wrap-around; the successor of a
-- number is unbounded, where C++ leaves overflow undefined. The read loop has as much fuel as bytes
-- and one more, which is enough since every message takes five bytes. The JSON parser has two units
-- of fuel for each character and two more, which is enough since each call of it by itself passes
-- over a character or is the call of a value in its list. The migration has as many rounds as its
-- target and one more, and the chunks of a summary as many as its length and one more. An
-- unordered_map is walked in the order of insertion. Texts that are cut or searched are ASCII.
--
-- Not modelled: ServerLogger.cpp, the mutexes (one thread), the indexes of the database (they change no
-- result), the socket beyond whether it is open, TcpServer::stop, the vendored libraries beside the
-- three headers above, the clients, and the rest of legacy/.
pub mod Prelude
pub mod Protocol
pub mod Json
pub mod ProtocolJson
pub mod Records
pub mod Env
pub mod Bcrypt
pub mod PasswordHash
pub mod FrameCodec
pub mod LegacyProtocolCodec
pub mod LegacyPasswordHash
pub mod AsyncSession
pub mod SessionPool
pub mod PresenceManager
pub mod RowFields
pub mod Database
pub mod MessageRepository
pub mod UserRepository
pub mod ChannelRepository
pub mod FriendRepository
pub mod LegacyMigrator
pub mod Server
pub mod Router
pub mod TcpServer
pub mod LanChatServer
pub mod Samples
