-- ===== src/Server/State.antt =====
-- server/game/GameServer.h: the state of the server and what it sends.
use arena_game.Prelude.{
  ℕ, ◌+◌, ◌-◌, Option, none, some, List, [], ◌∷◌, ◌++◌, ltb, length, nat_eq, if◌then◌else◌,
}
use arena_game.Prelude.Map.{Map, lookup}
use arena_game.Wire.Protocol.{MsgType, header_size, max_frame_size}
use arena_game.Wire.Stream.{Bytes, Writer, write_u16, write_u32, write_bytes}
use arena_game.Game.Account.{AccountRepository, SaveOutcome}
use arena_game.Game.Session.{SessionService}
use arena_game.Game.Room.{RoomService}
use arena_game.Game.MatchQueue.{MatchQueue}
use arena_game.Game.Battle.{BattleService}

-- What the server does to the connection of that number, `TcpConnection::send` and `shutdown`.
pub data Effect : Type 0 where
  send : ℕ → Bytes → Effect
  shutdown : ℕ → Effect

-- A connection is its number. `effects` are in the order in which they happen.
pub record GameServer : Type 0 where
  pub connections : Map ℕ ℕ
  pub accounts : AccountRepository
  pub sessions : SessionService
  pub rooms : RoomService
  pub match_queue : MatchQueue
  pub battles : BattleService
  pub effects : List Effect

-- What a handler takes from outside: the steady clock, and the fate of a save.
pub record World : Type 0 where
  pub now : ℕ
  pub save_outcome : SaveOutcome

unfoldable pub emit : Effect → GameServer → GameServer
emit e s = record s { effects = s.effects ++ (e ∷ []) }

-- The frame of a payload: its length with the header, its type, itself.
unfoldable pub frame : MsgType → Writer → Bytes
frame msg_type payload =
    write_bytes payload (write_u16 msg_type (write_u32 (header_size + length payload) []))

unfoldable pub send_to_connection : ℕ → MsgType → Writer → GameServer → GameServer
unfolding emit
send_to_connection conn_id msg_type payload s = elim (lookup conn_id s.connections) [
  | none ↦ s
  | some conn ↦
      if ltb (max_frame_size - header_size) (length payload)
      then emit (shutdown conn) s
      else emit (send conn (frame msg_type payload)) s
]

-- An encoded message goes out; one that cannot be encoded is only logged.
abbrev pub send_encoded : ℕ → MsgType → Option Writer → GameServer → GameServer
send_encoded conn_id msg_type encoded s = elim encoded [
  | none ↦ s
  | some payload ↦ send_to_connection conn_id msg_type payload s
]

-- As `send_encoded`, but the connection is shut down where the message cannot be encoded.
abbrev pub send_or_shutdown : ℕ → MsgType → Option Writer → GameServer → GameServer
send_or_shutdown conn_id msg_type encoded s = elim encoded [
  | none ↦ emit (shutdown conn_id) s
  | some payload ↦ send_to_connection conn_id msg_type payload s
]
