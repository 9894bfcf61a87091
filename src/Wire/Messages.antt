-- ===== src/Wire/Messages.antt =====
-- common/GameMessages.h: the message structures; the children hold `encode` and `decode`.
pub mod Accounts
pub mod Matching
pub mod Battle
pub mod RoundTrip
use arena_game.Prelude.{ℕ, Bool, true, false, []}
use arena_game.Wire.Stream.{Bytes}

-- `enum class ErrorCode : uint16_t`: any 16-bit value can come off the wire by `static_cast`.
abbrev pub ErrorCode : Type 0
ErrorCode = ℕ

abbrev pub no_error : ErrorCode
no_error = 0

abbrev pub malformed_payload : ErrorCode
malformed_payload = 1

abbrev pub invalid_credentials : ErrorCode
invalid_credentials = 2

abbrev pub duplicate_user_name : ErrorCode
duplicate_user_name = 3

abbrev pub not_authenticated : ErrorCode
not_authenticated = 4

abbrev pub invalid_state : ErrorCode
invalid_state = 5

abbrev pub invalid_command : ErrorCode
invalid_command = 6

abbrev pub internal_error : ErrorCode
internal_error = 7

-- `enum class HeroType : uint8_t`: any byte can come off the wire by `static_cast`.
abbrev pub HeroType : Type 0
HeroType = ℕ

abbrev pub no_hero : HeroType
no_hero = 0

abbrev pub warrior : HeroType
warrior = 1

abbrev pub mage : HeroType
mage = 2

abbrev pub archer : HeroType
archer = 3

pub record LoginRequest : Type 0 where
  pub user_name : Bytes
  pub password : Bytes

pub record RegisterRequest : Type 0 where
  pub user_name : Bytes
  pub password : Bytes

pub record LoginResponse : Type 0 where
  pub success : Bool
  pub user_id : ℕ
  pub elo : ℕ
  pub user_name : Bytes
  pub error_code : ErrorCode
  pub error_message : Bytes

pub record RegisterResponse : Type 0 where
  pub success : Bool
  pub user_id : ℕ
  pub user_name : Bytes
  pub error_code : ErrorCode
  pub error_message : Bytes

pub record MatchFoundNotification : Type 0 where
  pub room_id : ℕ
  pub opponent_user_id : ℕ
  pub opponent_user_name : Bytes
  pub opponent_elo : ℕ

pub record MatchJoinResponse : Type 0 where
  pub accepted : Bool
  pub error_code : ErrorCode
  pub error_message : Bytes

pub record MatchJoinRequest : Type 0 where

pub record MatchCancelRequest : Type 0 where

pub record MatchCancelResponse : Type 0 where
  pub accepted : Bool
  pub error_code : ErrorCode
  pub error_message : Bytes

pub record HeroSelectRequest : Type 0 where
  pub hero_type : HeroType

pub record HeroSelectResponse : Type 0 where
  pub accepted : Bool
  pub error_code : ErrorCode
  pub error_message : Bytes

pub record BattleStartNotification : Type 0 where
  pub room_id : ℕ
  pub player_hero : HeroType
  pub opponent_hero : HeroType

pub record BattleAttackRequest : Type 0 where

pub record BattleStateNotification : Type 0 where
  pub room_id : ℕ
  pub player_health : ℕ
  pub opponent_health : ℕ
  pub player_turn : Bool

pub record BattleResultNotification : Type 0 where
  pub room_id : ℕ
  pub won : Bool
  pub player_elo : ℕ

pub record RoomClosedNotification : Type 0 where
  pub room_id : ℕ
  pub reason : Bytes

-- The default member initialisers.
abbrev pub empty_login_response : LoginResponse
empty_login_response = record {
  success = false;
  user_id = 0;
  elo = 0;
  user_name = [];
  error_code = no_error;
  error_message = [];
}

abbrev pub empty_register_response : RegisterResponse
empty_register_response = record {
  success = false;
  user_id = 0;
  user_name = [];
  error_code = no_error;
  error_message = [];
}

abbrev pub empty_match_join_response : MatchJoinResponse
empty_match_join_response = record { accepted = false; error_code = no_error; error_message = [] }

abbrev pub empty_match_cancel_response : MatchCancelResponse
empty_match_cancel_response = record { accepted = false; error_code = no_error; error_message = [] }

abbrev pub empty_hero_select_response : HeroSelectResponse
empty_hero_select_response = record { accepted = false; error_code = no_error; error_message = [] }

-- `value ? 1 : 0`
abbrev pub flag : Bool → ℕ
flag true = 1
flag false = 0
