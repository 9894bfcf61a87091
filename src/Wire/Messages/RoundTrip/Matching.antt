-- ===== src/Wire/Messages/RoundTrip/Matching.antt =====
-- The messages of matchmaking and hero selection, encoded and decoded.
use arena_game.Prelude.{
  ◌^◌, ◌≤◌, ◌<◌, ◌≡◌, refl, Bool, true, false, some, [], ◌∷◌, ◌++◌, length, arith, if◌then◌else◌,
}
use arena_game.Wire.Protocol.{max_string_bytes}
use arena_game.Wire.Stream.Layout.{le_bytes, string_bytes, writes, lengths}
use arena_game.Wire.Stream.Reads.{
  reading, bind-ReadsAll, last-ReadsAll, guard-ReadsAll, u8-Reads, u32-Reads, u64-Reads,
  string-Reads, end-ReadsAll,
}
use arena_game.Wire.Messages.{
  MatchFoundNotification, MatchJoinResponse, MatchCancelResponse, HeroSelectRequest,
  HeroSelectResponse, RoomClosedNotification, empty_match_join_response,
  empty_match_cancel_response, empty_hero_select_response,
}
use arena_game.Wire.Messages.Matching.{
  encode_match_found, decode_match_found, encode_match_join_response, decode_match_join_response,
  encode_match_cancel_response, decode_match_cancel_response, encode_hero_select_request,
  decode_hero_select_request, encode_hero_select_response, decode_hero_select_response,
  encode_room_closed, decode_room_closed,
}
use arena_game.Wire.Messages.RoundTrip.{sent, sent_as, sent_lem, refusal-ReadsAll}

match_join_response-sent_flag :
    (r : MatchJoinResponse) (b : Bool)
    → r.error_code < 2 ^ 16
    → length r.error_message ≤ max_string_bytes
    → sent encode_match_join_response decode_match_join_response (record r { accepted = b })
      ≡ some (
          if b
          then record empty_match_join_response { accepted = true }
          else record r { accepted = b })
unfolding encode_match_join_response decode_match_join_response
match_join_response-sent_flag r true c m =
    sent_as encode_match_join_response decode_match_join_response (record r { accepted = true }) _
      (1 ∷ []) (simp writes refl) (last-ReadsAll _ (u8-Reads 1) (guard-ReadsAll (end-ReadsAll _)))
      (omega arith)
match_join_response-sent_flag r false c m =
    sent_as encode_match_join_response decode_match_join_response (record r { accepted = false }) _
      ((0 ∷ []) ++ (le_bytes 2 r.error_code ++ string_bytes r.error_message))
      (simp (writes, m) refl)
      (bind-ReadsAll _ (u8-Reads 0)
        (guard-ReadsAll (refusal-ReadsAll _ r.error_code r.error_message c m)))
      (simp lengths (omega arith))

match_cancel_response-sent_flag :
    (r : MatchCancelResponse) (b : Bool)
    → r.error_code < 2 ^ 16
    → length r.error_message ≤ max_string_bytes
    → sent encode_match_cancel_response decode_match_cancel_response (record r { accepted = b })
      ≡ some (
          if b
          then record empty_match_cancel_response { accepted = true }
          else record r { accepted = b })
unfolding encode_match_cancel_response decode_match_cancel_response
match_cancel_response-sent_flag r true c m =
    sent_as encode_match_cancel_response decode_match_cancel_response (record r { accepted = true })
      _ (1 ∷ []) (simp writes refl) (last-ReadsAll _ (u8-Reads 1) (guard-ReadsAll (end-ReadsAll _)))
      (omega arith)
match_cancel_response-sent_flag r false c m =
    sent_as encode_match_cancel_response decode_match_cancel_response
      (record r { accepted = false }) _
      ((0 ∷ []) ++ (le_bytes 2 r.error_code ++ string_bytes r.error_message))
      (simp (writes, m) refl)
      (bind-ReadsAll _ (u8-Reads 0)
        (guard-ReadsAll (refusal-ReadsAll _ r.error_code r.error_message c m)))
      (simp lengths (omega arith))

hero_select_response-sent_flag :
    (r : HeroSelectResponse) (b : Bool)
    → r.error_code < 2 ^ 16
    → length r.error_message ≤ max_string_bytes
    → sent encode_hero_select_response decode_hero_select_response (record r { accepted = b })
      ≡ some (
          if b
          then record empty_hero_select_response { accepted = true }
          else record r { accepted = b })
unfolding encode_hero_select_response decode_hero_select_response
hero_select_response-sent_flag r true c m =
    sent_as encode_hero_select_response decode_hero_select_response (record r { accepted = true }) _
      (1 ∷ []) (simp writes refl) (last-ReadsAll _ (u8-Reads 1) (guard-ReadsAll (end-ReadsAll _)))
      (omega arith)
hero_select_response-sent_flag r false c m =
    sent_as encode_hero_select_response decode_hero_select_response (record r { accepted = false })
      _ ((0 ∷ []) ++ (le_bytes 2 r.error_code ++ string_bytes r.error_message))
      (simp (writes, m) refl)
      (bind-ReadsAll _ (u8-Reads 0)
        (guard-ReadsAll (refusal-ReadsAll _ r.error_code r.error_message c m)))
      (simp lengths (omega arith))

pub match_join_response-sent :
    (r : MatchJoinResponse)
    → r.error_code < 2 ^ 16
    → length r.error_message ≤ max_string_bytes
    → sent encode_match_join_response decode_match_join_response r
      ≡ some (if r.accepted then record empty_match_join_response { accepted = true } else r)
match_join_response-sent r c m = match_join_response-sent_flag r r.accepted c m

pub match_cancel_response-sent :
    (r : MatchCancelResponse)
    → r.error_code < 2 ^ 16
    → length r.error_message ≤ max_string_bytes
    → sent encode_match_cancel_response decode_match_cancel_response r
      ≡ some (if r.accepted then record empty_match_cancel_response { accepted = true } else r)
match_cancel_response-sent r c m = match_cancel_response-sent_flag r r.accepted c m

-- The response to a hero selection, with a 16-bit error code and a message of at most 1024 bytes,
-- is received as it was sent where it refuses, and as a plain acceptance where it accepts.
pub hero_select_response-sent :
    (r : HeroSelectResponse)
    → r.error_code < 2 ^ 16
    → length r.error_message ≤ max_string_bytes
    → sent encode_hero_select_response decode_hero_select_response r
      ≡ some (if r.accepted then record empty_hero_select_response { accepted = true } else r)
hero_select_response-sent r c m = hero_select_response-sent_flag r r.accepted c m

pub record FitsMatchFound (r : MatchFoundNotification) : Type 0 where
  pub room_id_fits : r.room_id < 2 ^ 64
  pub opponent_user_id_fits : r.opponent_user_id < 2 ^ 32
  pub opponent_user_name_fits : length r.opponent_user_name ≤ max_string_bytes
  pub opponent_elo_fits : r.opponent_elo < 2 ^ 32

-- A match notification whose numbers fit their fields and whose name has at most 1024 bytes is
-- received as it was sent.
pub match_found-sent :
    (r : MatchFoundNotification)
    → FitsMatchFound r
    → sent encode_match_found decode_match_found r ≡ some r
unfolding encode_match_found decode_match_found
match_found-sent r h =
    let n : length r.opponent_user_name ≤ 1024 = h.opponent_user_name_fits in
    sent_lem encode_match_found decode_match_found r
      (le_bytes 8 r.room_id
        ++ (le_bytes 4 r.opponent_user_id
            ++ (string_bytes r.opponent_user_name ++ le_bytes 4 r.opponent_elo)))
      (simp (writes, n) refl)
      (bind-ReadsAll _ (u64-Reads r.room_id h.room_id_fits) (
        bind-ReadsAll _ (u32-Reads r.opponent_user_id h.opponent_user_id_fits) (
          bind-ReadsAll _ (string-Reads r.opponent_user_name n)
            (last-ReadsAll _ (u32-Reads r.opponent_elo h.opponent_elo_fits) (end-ReadsAll r)))))
      (simp lengths (omega arith))

pub room_closed-sent :
    (r : RoomClosedNotification)
    → r.room_id < 2 ^ 64
    → length r.reason ≤ max_string_bytes
    → sent encode_room_closed decode_room_closed r ≡ some r
unfolding encode_room_closed decode_room_closed
room_closed-sent r i n =
    sent_lem encode_room_closed decode_room_closed r (le_bytes 8 r.room_id ++ string_bytes r.reason)
      (simp (writes, n) refl) (search (reading, i, n)) (simp lengths (omega arith))

pub hero_select_request-sent :
    (r : HeroSelectRequest) → sent encode_hero_select_request decode_hero_select_request r ≡ some r
unfolding encode_hero_select_request decode_hero_select_request
hero_select_request-sent r =
    sent_lem encode_hero_select_request decode_hero_select_request r (r.hero_type ∷ [])
      (simp writes refl) (last-ReadsAll _ (u8-Reads r.hero_type) (end-ReadsAll r)) (omega arith)
