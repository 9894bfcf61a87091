-- ===== src/Wire/Messages/RoundTrip/Battle.antt =====
-- The messages of a battle, encoded and decoded.
use arena_game.Prelude.{◌^◌, ◌<◌, ◌≡◌, refl, Bool, true, false, some, [], ◌∷◌, ◌++◌, arith}
use arena_game.Wire.Stream.Layout.{le_bytes, writes, lengths}
use arena_game.Wire.Stream.Reads.{
  bind-ReadsAll, last-ReadsAll, guard-ReadsAll, u8-Reads, u16-Reads, u32-Reads, u64-Reads,
  end-ReadsAll,
}
use arena_game.Wire.Messages.{
  BattleStartNotification, BattleStateNotification, BattleResultNotification,
}
use arena_game.Wire.Messages.Battle.{
  encode_battle_start, decode_battle_start, encode_battle_state, decode_battle_state,
  encode_battle_result, decode_battle_result,
}
use arena_game.Wire.Messages.RoundTrip.{sent, sent_lem}

pub battle_start-sent :
    (r : BattleStartNotification)
    → r.room_id < 2 ^ 64
    → sent encode_battle_start decode_battle_start r ≡ some r
unfolding encode_battle_start decode_battle_start
battle_start-sent r i =
    sent_lem encode_battle_start decode_battle_start r
      (le_bytes 8 r.room_id ++ ((r.player_hero ∷ []) ++ (r.opponent_hero ∷ []))) (simp writes refl)
      (bind-ReadsAll _ (u64-Reads r.room_id i) (
        bind-ReadsAll _ (u8-Reads r.player_hero)
          (last-ReadsAll _ (u8-Reads r.opponent_hero) (end-ReadsAll r))))
      (simp lengths (omega arith))

pub record FitsBattleState (r : BattleStateNotification) : Type 0 where
  pub room_id_fits : r.room_id < 2 ^ 64
  pub player_health_fits : r.player_health < 2 ^ 16
  pub opponent_health_fits : r.opponent_health < 2 ^ 16

battle_state-sent_flag :
    (r : BattleStateNotification) (b : Bool)
    → FitsBattleState r
    → let r' : BattleStateNotification = record r { player_turn = b } in
      sent encode_battle_state decode_battle_state r' ≡ some r'
unfolding encode_battle_state decode_battle_state
battle_state-sent_flag r true h =
    sent_lem encode_battle_state decode_battle_state (record r { player_turn = true })
      (le_bytes 8 r.room_id
        ++ (le_bytes 2 r.player_health ++ (le_bytes 2 r.opponent_health ++ (1 ∷ []))))
      (simp writes refl)
      (bind-ReadsAll _ (u64-Reads r.room_id h.room_id_fits) (
        bind-ReadsAll _ (u16-Reads r.player_health h.player_health_fits) (
          bind-ReadsAll _ (u16-Reads r.opponent_health h.opponent_health_fits)
            (last-ReadsAll _ (u8-Reads 1) (guard-ReadsAll (end-ReadsAll _))))))
      (simp lengths (omega arith))
battle_state-sent_flag r false h =
    sent_lem encode_battle_state decode_battle_state (record r { player_turn = false })
      (le_bytes 8 r.room_id
        ++ (le_bytes 2 r.player_health ++ (le_bytes 2 r.opponent_health ++ (0 ∷ []))))
      (simp writes refl)
      (bind-ReadsAll _ (u64-Reads r.room_id h.room_id_fits) (
        bind-ReadsAll _ (u16-Reads r.player_health h.player_health_fits) (
          bind-ReadsAll _ (u16-Reads r.opponent_health h.opponent_health_fits)
            (last-ReadsAll _ (u8-Reads 0) (guard-ReadsAll (end-ReadsAll _))))))
      (simp lengths (omega arith))

-- The state of a battle, with a 64-bit room number and 16-bit healths, is received as it was sent.
pub battle_state-sent :
    (r : BattleStateNotification)
    → FitsBattleState r
    → sent encode_battle_state decode_battle_state r ≡ some r
battle_state-sent r h = battle_state-sent_flag r r.player_turn h

battle_result-sent_flag :
    (r : BattleResultNotification) (b : Bool)
    → r.room_id < 2 ^ 64
    → r.player_elo < 2 ^ 32
    → let r' : BattleResultNotification = record r { won = b } in
      sent encode_battle_result decode_battle_result r' ≡ some r'
unfolding encode_battle_result decode_battle_result
battle_result-sent_flag r true i e =
    sent_lem encode_battle_result decode_battle_result (record r { won = true })
      (le_bytes 8 r.room_id ++ ((1 ∷ []) ++ le_bytes 4 r.player_elo)) (simp writes refl)
      (bind-ReadsAll _ (u64-Reads r.room_id i) (
        bind-ReadsAll _ (u8-Reads 1)
          (last-ReadsAll _ (u32-Reads r.player_elo e) (guard-ReadsAll (end-ReadsAll _)))))
      (simp lengths (omega arith))
battle_result-sent_flag r false i e =
    sent_lem encode_battle_result decode_battle_result (record r { won = false })
      (le_bytes 8 r.room_id ++ ((0 ∷ []) ++ le_bytes 4 r.player_elo)) (simp writes refl)
      (bind-ReadsAll _ (u64-Reads r.room_id i) (
        bind-ReadsAll _ (u8-Reads 0)
          (last-ReadsAll _ (u32-Reads r.player_elo e) (guard-ReadsAll (end-ReadsAll _)))))
      (simp lengths (omega arith))

-- The result of a battle, with a 64-bit room number and a 32-bit rating, is received as it was
-- sent.
pub battle_result-sent :
    (r : BattleResultNotification)
    → r.room_id < 2 ^ 64
    → r.player_elo < 2 ^ 32
    → sent encode_battle_result decode_battle_result r ≡ some r
battle_result-sent r i e = battle_result-sent_flag r r.won i e
