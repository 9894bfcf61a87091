-- ===== src/Lib.antt =====
-- A model of the arena game server: two players log in, are matched by rating, select a hero each
-- and fight by turns; ratings go up and down and are kept in a file.
--
-- The program's parts, and the files that model them:
--
-- Wire/Protocol: common/GameProtocol.h, the numbers of the messages and the limits of a frame.
-- Wire/Stream: common/BinaryStream.h. `BinaryWriter` is the list of its bytes and each `write...`
-- a function of it; `BinaryReader` is a record with its position, and each `read...` returns an
-- Option. Wire/Stream/Layout and Wire/Stream/Reads hold what the proofs on it share.
-- Wire/Messages: common/GameMessages.h, a record for each struct; the children hold `encode` and
-- `decode` of each, as `encode_login_request` and so on.
-- Net/Buffer: server/muduo/Buffer.h and Buffer.cc, the vector with its two indexes.
-- Net/Channel, Net/Poller: server/muduo/Channel.h, Channel.cc, Poller.cc and EPollPoller.cc. A
-- channel's events are two flags, its index a data type, and the poller is a record of its map and of
-- what the system has registered. `LOG_FATAL` is a flag of the poller.
-- Net/Connection: server/muduo/TcpConnection.cc. A connection is a record of its state, its buffers,
-- its channel, what its socket has sent, and the pending functors of its loop; each system call's
-- result is an argument, and so are the server's callbacks.
-- Net/Timers: server/muduo/TimerQueue.cc and Timer.cc. The set of entries is an ordered list of
-- timers, `ActiveTimerSet` an ordered list of addresses with numbers, and `timerfd_` the time to wait
-- that it was set to, and when; a callback is a list of calls on the queue, and the numbers of those
-- that have run are listed in `called`. Each reading of the clock is an argument.
-- Client/Network: client/ArenaClient/network/GameClinet.cc. A handler is a function of the socket and
-- of a state that stands for the scenes.
-- Client/Scenes, Window, Login, Startup: client/ArenaClient/scenes/ and mainwindow.cpp. A scene is the
-- record of what its labels show and of the buttons that are enabled, the main window a record of the
-- four scenes, of the one that is shown, and of its members. Each handler of a message is a function
-- on the window; a click is a function on the client, since it can send. `onLoginClicked` is
-- `on_login_clicked`, `initUi` is `init_ui`.
-- Game/Room, Game/Session, Game/Battle, Game/Account, Game/MatchQueue, Game/Matchmaking: the
-- services of server/game/ (Room.cc, SessionService.cc, BattleService.cc, AccountRepository.cc,
-- MatchQueue.cc, MatchmakingService.cc). The state of each is a record of its members and each
-- method a function that returns the new state and the result; `RoomService::create` is
-- `Game.Room.create`, and so on. A hash map is an association list, a `std::set` an ordered list.
-- Server/State, Login, Queueing, Heroes, Fighting, Lifecycle, Frames: server/game/GameServer.cc. The
-- server is the record of its services, its open connections by number, and the list of what it has
-- done to the connections, `send` and `shutdown`, in order. `handleLogin` is `handle_login`,
-- `onConnection` is `on_connection`, `onMessage` is `on_message`, and so on.
-- Prelude: numbers, lists, maps, ordered sets, and IEEE single precision numbers with rounding to
-- nearest, as multiples of 2 ^ -149, for the rating range of MatchQueue.cc.
-- Tests: the data of the tests, and the theorems at concrete inputs.
--
-- How the parts interact: `on_message` cuts the input of a connection into frames and gives each
-- payload to a handler; a handler decodes the message, calls the services and sends encoded answers;
-- a tick of the matchmaking takes pairs out of the queue, makes rooms and tells both players; the
-- end of a battle rates the players in the accounts and their sessions and removes the room. What
-- comes from outside is an argument: the clock and the fate of a save, `World`, and the bytes of a
-- connection. The server runs its handlers one after the other in one event loop, so that each is one
-- function of the state.
--
-- Numbers are the native natural numbers. The fields have the widths of the source: a byte of the
-- writer is taken modulo 256, the next room number modulo 2 ^ 64, the next user number goes from its
-- highest value to 0 as the source does it. Theorems that need a width name it.
--
-- Fuel: `tick` has one round more than the queue has tickets, since a round takes a ticket out of
-- the queue at least; `on_message` and `process_buffer` have one round more than the input has bytes, since a
-- round takes a frame off the input; `load` has one round more than the file has bytes, since a round takes a
-- byte off the file at least. That they are enough is proved.
--
-- Not modelled: `writeFloat` and `readFloat`, the start of the server, the event loop, the
-- listening socket and threads of server/muduo/, the logs, the configuration of
-- server/db/, and of the client the layouts, the styles, and the timer that goes back to the login
-- page after a registration. `QString::trimmed` is an argument. Log lines are left out. The order in which `save` writes the accounts
-- is the order of the list, where the source has that of its hash map. Strings of the source are
-- bytes; `std::isspace` is that of the C locale, and the extractions of `std::ifstream` in `load` are
-- those of the standard library.
pub mod Prelude
pub mod Wire
pub mod Net
pub mod Game
pub mod Server
pub mod Client
pub mod Tests
