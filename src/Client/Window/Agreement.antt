-- ===== src/Client/Window/Agreement.antt =====
-- client/ArenaClient/mainwindow.cpp shows what server/game/GameServer.cc has encoded.
use arena_game.Prelude.{
  ℕ, ◌^◌, ◌<◌, ◌≡◌, ◌⊎◌, refl, true, false, not, Option, none, some, [], ◌==◌, nat_eq,
  if◌then◌else◌, arith, inl, inr, if_cases,
}
use arena_game.Wire.Stream.{Bytes, Reader, Writer, Read, reader_of}
use arena_game.Wire.Messages.{BattleStateNotification, BattleResultNotification}
use arena_game.Wire.Messages.Matching.{decode_room_closed}
use arena_game.Wire.Messages.Battle.{
  encode_battle_state, decode_battle_state, encode_battle_result, decode_battle_result,
  decode_battle_start,
}
use arena_game.Wire.Messages.RoundTrip.{sent}
use arena_game.Wire.Stream.Reads.{result}
use arena_game.Wire.Messages.RoundTrip.Battle.{
  FitsBattleState, battle_state-sent, battle_result-sent,
}
use arena_game.Client.Scenes.{your_turn, opponent_turn, victory, defeat}
use arena_game.Client.Window.{
  MainWindow, on_battle_state, on_battle_result, on_battle_start, on_room_closed,
}

-- What is decoded from the bytes that were encoded.
decoded :
    {A : Type 0} (o : Option (A × Reader)) (value : A)
    → result o ≡ some value
    → (rest : Reader) × (o ≡ some (value, rest))
decoded none value e = absurd (ground (arith, e))
decoded (some (v, rest)) value e = (rest, ground (arith, e))

-- What a message of one room does to the window: nothing, or the message is of the matched room.
abbrev pub IsOwn : {A : Type 0} → (A → ℕ) → Option (A × Reader) → MainWindow → MainWindow → Type 0
IsOwn {A} room message w after =
    (after ≡ w)
    ⊎ ((n : A) × (rest : Reader) × (message ≡ some (n, rest)) × (room n ≡ w.matched_room_id))

received :
    {A : Type 0} (encode : A → Writer → Option Writer) (decode : Read A) (value : A) (bytes : Bytes)
    → encode value [] ≡ some bytes
    → sent encode decode value ≡ some value
    → result (decode (reader_of bytes)) ≡ some value
received encode decode value bytes e h = rw (e, sent) at h

message-IsOwn :
    {A : Type 0} (room : A → ℕ) (message : Option (A × Reader)) (w : MainWindow)
    (f : A → MainWindow)
    → IsOwn room message w (elim message [
      | none ↦ w
      | some (n, _) ↦ if not (room n == w.matched_room_id) then w else f n
    ])
message-IsOwn room none w f = inl refl
message-IsOwn room (some (n, rest)) w f =
    if_cases (IsOwn room (some (n, rest)) w) (not (room n == w.matched_room_id)) w (f n)
      (λ e. inl refl) (λ e. inr (n, rest, refl, ground (arith, e)))

-- The state of the battle in the room of the window, with a 64-bit room number and 16-bit healths,
-- is shown as the server has encoded it: both healths and whose turn it is; the player can attack
-- exactly at the own turn, and the scene stays.
pub on_battle_state-encode :
    (r : BattleStateNotification) (bytes : Bytes) (w : MainWindow)
    → FitsBattleState r
    → encode_battle_state r [] ≡ some bytes
    → w.matched_room_id ≡ r.room_id
    → let shown : MainWindow = on_battle_state (reader_of bytes) w in
      (shown.battle.player_health ≡ r.player_health)
      × (shown.battle.opponent_health ≡ r.opponent_health)
      × (shown.battle.attack_enabled ≡ r.player_turn)
      × (shown.battle.battle_status ≡ (if r.player_turn then your_turn else opponent_turn))
      × (shown.current ≡ w.current)
unfolding on_battle_state
on_battle_state-encode r bytes w fits e own =
    let back : result (decode_battle_state (reader_of bytes)) ≡ some r =
      received encode_battle_state decode_battle_state r bytes e (battle_state-sent r fits) in
    let (rest, d) = decoded (decode_battle_state (reader_of bytes)) r back in
    let same : (r.room_id == w.matched_room_id) ≡ true = ground (arith, own) in
    (
      ground (arith, d, same),
      ground (arith, d, same),
      ground (arith, d, same),
      ground (arith, d, same),
      ground (arith, d, same),
    )

-- The result of the battle in the room of the window, with a 64-bit room number and a 32-bit
-- rating, is shown as the server has encoded it, with the new rating in both scenes; the player
-- can go back to the lobby and attacks no more.
pub on_battle_result-encode :
    (r : BattleResultNotification) (bytes : Bytes) (w : MainWindow)
    → r.room_id < 2 ^ 64
    → r.player_elo < 2 ^ 32
    → encode_battle_result r [] ≡ some bytes
    → w.matched_room_id ≡ r.room_id
    → let shown : MainWindow = on_battle_result (reader_of bytes) w in
      (shown.elo ≡ r.player_elo)
      × (shown.lobby.player.elo ≡ r.player_elo)
      × (shown.battle.player.elo ≡ r.player_elo)
      × (shown.battle.battle_status ≡ (if r.won then victory else defeat))
      × (shown.battle.return_enabled ≡ true)
      × (shown.battle.attack_enabled ≡ false)
unfolding on_battle_result
on_battle_result-encode r bytes w i f e own =
    let back : result (decode_battle_result (reader_of bytes)) ≡ some r =
      received encode_battle_result decode_battle_result r bytes e (battle_result-sent r i f) in
    let (rest, d) = decoded (decode_battle_result (reader_of bytes)) r back in
    let same : (r.room_id == w.matched_room_id) ≡ true = ground (arith, own) in
    (
      ground (arith, d, same),
      ground (arith, d, same),
      ground (arith, d, same),
      ground (arith, d, same),
      ground (arith, d, same),
      ground (arith, d, same),
    )

-- Whatever arrives, the messages of a room change the window only where they can be decoded and are
-- of the room that the player was matched into.
pub room_messages-IsOwn :
    (reader : Reader) (w : MainWindow)
    → IsOwn (λ n. n.room_id) (decode_battle_start reader) w (on_battle_start reader w)
      × IsOwn (λ n. n.room_id) (decode_battle_state reader) w (on_battle_state reader w)
      × IsOwn (λ n. n.room_id) (decode_battle_result reader) w (on_battle_result reader w)
      × IsOwn (λ n. n.room_id) (decode_room_closed reader) w (on_room_closed reader w)
unfolding on_battle_start on_battle_state on_battle_result on_room_closed
room_messages-IsOwn reader w = (
  message-IsOwn (λ n. n.room_id) (decode_battle_start reader) w _,
  message-IsOwn (λ n. n.room_id) (decode_battle_state reader) w _,
  message-IsOwn (λ n. n.room_id) (decode_battle_result reader) w _,
  message-IsOwn (λ n. n.room_id) (decode_room_closed reader) w _,
)
