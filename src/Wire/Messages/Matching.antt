-- ===== src/Wire/Messages/Matching.antt =====
-- common/GameMessages.h: the messages of matchmaking and hero selection.
use arena_game.Prelude.{true, false, Option, some, not, ◌==◌, ◌||◌, nat_eq, if◌then◌else◌}
use mathlib.Core.Option
use arena_game.Wire.Stream.{
  Writer, write_u8, write_u16, write_u32, write_u64, write_string, Read, ◌>>=◌, ◌>>◌, pure, guard,
  read_u8, read_u16, read_u32, read_u64, read_string, at_end,
}
use arena_game.Wire.Messages.{
  MatchFoundNotification, MatchJoinRequest, MatchJoinResponse, MatchCancelRequest,
  MatchCancelResponse, HeroSelectRequest, HeroSelectResponse, RoomClosedNotification, flag,
  empty_match_join_response, empty_match_cancel_response, empty_hero_select_response,
}

unfoldable pub encode_match_found : MatchFoundNotification → Writer → Option Writer
encode_match_found value writer = Option.map (write_u32 value.opponent_elo) (
    write_string value.opponent_user_name
      (write_u32 value.opponent_user_id (write_u64 value.room_id writer)))

unfoldable pub decode_match_found : Read MatchFoundNotification
decode_match_found = do
  room_id ← read_u64
  opponent_user_id ← read_u32
  opponent_user_name ← read_string
  opponent_elo ← read_u32
  at_end
  pure (record {
    room_id = room_id;
    opponent_user_id = opponent_user_id;
    opponent_user_name = opponent_user_name;
    opponent_elo = opponent_elo;
  })

unfoldable pub encode_match_join_response : MatchJoinResponse → Writer → Option Writer
encode_match_join_response value writer =
    let begun = write_u8 (flag value.accepted) writer in
    if value.accepted
    then some begun
    else write_string value.error_message (write_u16 value.error_code begun)

unfoldable pub decode_match_join_response : Read MatchJoinResponse
decode_match_join_response = do
  accepted ← read_u8
  guard (accepted == 0 || accepted == 1)
  if not (accepted == 0)
      then (do at_end; pure (record empty_match_join_response { accepted = true }))
      else (do
        error_code ← read_u16
        error_message ← read_string
        at_end
        pure (record { accepted = false; error_code = error_code; error_message = error_message }))

unfoldable pub encode_match_join_request : MatchJoinRequest → Writer → Option Writer
encode_match_join_request value writer = some writer

unfoldable pub decode_match_join_request : Read MatchJoinRequest
decode_match_join_request = do at_end; pure (record {})

unfoldable pub encode_hero_select_request : HeroSelectRequest → Writer → Option Writer
encode_hero_select_request value writer = some (write_u8 value.hero_type writer)

unfoldable pub decode_hero_select_request : Read HeroSelectRequest
decode_hero_select_request = do hero_type ← read_u8; at_end; pure (record { hero_type = hero_type })

unfoldable pub encode_hero_select_response : HeroSelectResponse → Writer → Option Writer
encode_hero_select_response value writer =
    let begun = write_u8 (flag value.accepted) writer in
    if value.accepted
    then some begun
    else write_string value.error_message (write_u16 value.error_code begun)

unfoldable pub decode_hero_select_response : Read HeroSelectResponse
decode_hero_select_response = do
  accepted ← read_u8
  guard (accepted == 0 || accepted == 1)
  if not (accepted == 0)
      then (do at_end; pure (record empty_hero_select_response { accepted = true }))
      else (do
        error_code ← read_u16
        error_message ← read_string
        at_end
        pure (record { accepted = false; error_code = error_code; error_message = error_message }))

unfoldable pub encode_room_closed : RoomClosedNotification → Writer → Option Writer
encode_room_closed value writer = write_string value.reason (write_u64 value.room_id writer)

unfoldable pub decode_room_closed : Read RoomClosedNotification
decode_room_closed = do
  room_id ← read_u64
  reason ← read_string
  at_end
  pure (record { room_id = room_id; reason = reason })

unfoldable pub encode_match_cancel_request : MatchCancelRequest → Writer → Option Writer
encode_match_cancel_request value writer = some writer

unfoldable pub decode_match_cancel_request : Read MatchCancelRequest
decode_match_cancel_request = do at_end; pure (record {})

unfoldable pub encode_match_cancel_response : MatchCancelResponse → Writer → Option Writer
encode_match_cancel_response value writer =
    let begun = write_u8 (flag value.accepted) writer in
    if value.accepted
    then some begun
    else write_string value.error_message (write_u16 value.error_code begun)

unfoldable pub decode_match_cancel_response : Read MatchCancelResponse
decode_match_cancel_response = do
  accepted ← read_u8
  guard (accepted == 0 || accepted == 1)
  if not (accepted == 0)
      then (do at_end; pure (record empty_match_cancel_response { accepted = true }))
      else (do
        error_code ← read_u16
        error_message ← read_string
        at_end
        pure (record { accepted = false; error_code = error_code; error_message = error_message }))
