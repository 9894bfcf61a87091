-- ===== src/Wire/Messages/Battle.antt =====
-- common/GameMessages.h: the messages of a battle.
use arena_game.Prelude.{Option, some, not, ◌==◌, ◌||◌, nat_eq}
use arena_game.Wire.Stream.{
  Writer, write_u8, write_u16, write_u32, write_u64, Read, ◌>>=◌, ◌>>◌, pure, guard, read_u8,
  read_u16, read_u32, read_u64, at_end,
}
use arena_game.Wire.Messages.{
  BattleStartNotification, BattleAttackRequest, BattleStateNotification, BattleResultNotification,
  flag,
}

unfoldable pub encode_battle_start : BattleStartNotification → Writer → Option Writer
encode_battle_start value writer =
    some
      (write_u8 value.opponent_hero (write_u8 value.player_hero (write_u64 value.room_id writer)))

unfoldable pub decode_battle_start : Read BattleStartNotification
decode_battle_start = do
  room_id ← read_u64
  player_hero ← read_u8
  opponent_hero ← read_u8
  at_end
  pure (record { room_id = room_id; player_hero = player_hero; opponent_hero = opponent_hero })

unfoldable pub encode_battle_attack_request : BattleAttackRequest → Writer → Option Writer
encode_battle_attack_request value writer = some writer

unfoldable pub decode_battle_attack_request : Read BattleAttackRequest
decode_battle_attack_request = do at_end; pure (record {})

unfoldable pub encode_battle_state : BattleStateNotification → Writer → Option Writer
encode_battle_state value writer = some (
    write_u8 (flag value.player_turn) (
      write_u16 value.opponent_health
        (write_u16 value.player_health (write_u64 value.room_id writer))))

unfoldable pub decode_battle_state : Read BattleStateNotification
decode_battle_state = do
  room_id ← read_u64
  player_health ← read_u16
  opponent_health ← read_u16
  player_turn ← read_u8
  guard (player_turn == 0 || player_turn == 1)
  at_end
  pure (record {
    room_id = room_id;
    player_health = player_health;
    opponent_health = opponent_health;
    player_turn = not (player_turn == 0);
  })

unfoldable pub encode_battle_result : BattleResultNotification → Writer → Option Writer
encode_battle_result value writer =
    some (write_u32 value.player_elo (write_u8 (flag value.won) (write_u64 value.room_id writer)))

unfoldable pub decode_battle_result : Read BattleResultNotification
decode_battle_result = do
  room_id ← read_u64
  won ← read_u8
  player_elo ← read_u32
  guard (won == 0 || won == 1)
  at_end
  pure (record { room_id = room_id; won = not (won == 0); player_elo = player_elo })
