-- ===== src/Game/Battle.antt =====
-- server/game/BattleService.h and BattleService.cc: battles by turns, and the rating after one.
pub mod Invariant
pub mod Turns
pub mod Rating
use arena_game.Prelude.{
  ℕ, ◌+◌, ◌-◌, ◌^◌, Bool, true, false, not, ◌&&◌, ◌||◌, Option, none, some, [], ◌==◌, nat_eq, ltb,
  leb, if◌then◌else◌,
}
use arena_game.Prelude.Map.{Map, lookup, insert, emplace, erase}
use arena_game.Wire.Messages.{HeroType, no_hero, warrior, mage, archer}
use arena_game.Game.Room.{Room}

pub record BattleState : Type 0 where
  pub room_id : ℕ
  pub first_user_id : ℕ
  pub second_user_id : ℕ
  pub first_hero : HeroType
  pub second_hero : HeroType
  pub first_health : ℕ
  pub second_health : ℕ
  pub active_user_id : ℕ
  pub finished : Bool
  pub winner_user_id : ℕ

-- `BattleState state;`
abbrev pub empty_battle_state : BattleState
empty_battle_state = record {
  room_id = 0;
  first_user_id = 0;
  second_user_id = 0;
  first_hero = no_hero;
  second_hero = no_hero;
  first_health = 100;
  second_health = 100;
  active_user_id = 0;
  finished = false;
  winner_user_id = 0;
}

pub record BattleActionResult : Type 0 where
  pub accepted : Bool
  pub finished : Bool
  pub state : BattleState

abbrev pub empty_action_result : BattleActionResult
empty_action_result = record { accepted = false; finished = false; state = empty_battle_state }

pub record BattleEloResult : Type 0 where
  pub first_elo : ℕ
  pub second_elo : ℕ

-- `battles_`
abbrev pub BattleService : Type 0
BattleService = Map ℕ BattleState

unfoldable pub hero_damage : HeroType → ℕ
hero_damage hero_type =
    if hero_type == warrior
    then 30
    else (if hero_type == mage then 25 else (if hero_type == archer then 20 else 0))

-- The state that `start` makes of a room.
abbrev pub initial_state : Room → BattleState
initial_state room = record empty_battle_state {
  room_id = room.room_id;
  first_user_id = room.first_user_id;
  second_user_id = room.second_user_id;
  first_hero = room.first_hero;
  second_hero = room.second_hero;
  active_user_id = room.first_user_id;
}

unfoldable pub start : Room → BattleService → BattleService × Bool
unfolding hero_damage
start room battles =
    if room.room_id == 0
      || room.first_user_id == 0
      || room.second_user_id == 0
      || room.first_user_id == room.second_user_id
      || hero_damage room.first_hero == 0
      || hero_damage room.second_hero == 0
      || elim (lookup room.room_id battles) [ none ↦ false | some _ ↦ true ]
    then (battles, false)
    else (emplace room.room_id (initial_state room) battles, true)

unfoldable pub find : ℕ → BattleService → Option BattleState
find room_id battles = lookup room_id battles

unfoldable pub remove : ℕ → BattleService → BattleService × Bool
remove room_id battles =
    (erase room_id battles, elim (lookup room_id battles) [ none ↦ false | some _ ↦ true ])

-- The blow of `user_id` at a target with `health` left: the new health, and whether it falls.
unfoldable pub strike : ℕ → ℕ → ℕ × Bool
strike damage health = if leb health damage then (0, true) else (health - damage, false)

-- What a blow does to the turn and the outcome.
abbrev pub settle : ℕ → ℕ → Bool → BattleState → BattleState
settle user_id next_user_id falls state =
    if falls
    then record state { finished = true; winner_user_id = user_id; active_user_id = 0 }
    else record state { active_user_id = next_user_id }

-- `attack` on the battle that was found: `none` where it returns the empty result.
unfoldable pub attack_state : ℕ → BattleState → Option BattleState
unfolding hero_damage strike
attack_state user_id state =
    if state.finished || not (state.active_user_id == user_id)
    then none
    else (if user_id == state.first_user_id
        then (let damage = hero_damage state.first_hero in
            let (health, falls) = strike damage state.second_health in
            if damage == 0
            then none
            else some (
                settle user_id state.second_user_id falls
                  (record state { second_health = health })))
        else (if user_id == state.second_user_id
            then (let damage = hero_damage state.second_hero in
                let (health, falls) = strike damage state.first_health in
                if damage == 0
                then none
                else some (
                    settle user_id state.first_user_id falls
                      (record state { first_health = health })))
            else none))

unfoldable pub attack : ℕ → ℕ → BattleService → BattleService × BattleActionResult
attack room_id user_id battles = elim (lookup room_id battles) [
  | none ↦ (battles, empty_action_result)
  | some state ↦ elim (attack_state user_id state) [
    | none ↦ (battles, empty_action_result)
    | some state' ↦ (
      insert room_id state' battles,
      record { accepted = true; finished = state'.finished; state = state' },
    )
  ]
]

-- `forfeit` on the battle that was found: `none` where it returns the empty result.
unfoldable pub forfeit_state : ℕ → BattleState → Option BattleState
forfeit_state user_id state =
    if state.finished
      || (not (user_id == state.first_user_id) && not (user_id == state.second_user_id))
    then none
    else some (record state {
      finished = true;
      winner_user_id =
          if user_id == state.first_user_id then state.second_user_id else state.first_user_id;
      active_user_id = 0;
    })

unfoldable pub forfeit : ℕ → ℕ → BattleService → BattleService × BattleActionResult
forfeit room_id user_id battles = elim (lookup room_id battles) [
  | none ↦ (battles, empty_action_result)
  | some state ↦ elim (forfeit_state user_id state) [
    | none ↦ (battles, empty_action_result)
    | some state' ↦
        (insert room_id state' battles, record { accepted = true; finished = true; state = state' })
  ]
]

-- `std::numeric_limits<uint32_t>::max()`
abbrev pub max_elo : ℕ
max_elo = 2 ^ 32 - 1

abbrev pub raise_elo : ℕ → ℕ
raise_elo elo = if ltb (max_elo - 25) elo then max_elo else elo + 25

abbrev pub lower_elo : ℕ → ℕ
lower_elo elo = if leb 25 elo then elo - 25 else 0

unfoldable pub calculate_elo : BattleState → ℕ → ℕ → BattleEloResult
calculate_elo state first_elo second_elo =
    if state.winner_user_id == state.first_user_id
    then record { first_elo = raise_elo first_elo; second_elo = lower_elo second_elo }
    else (if state.winner_user_id == state.second_user_id
        then record { first_elo = lower_elo first_elo; second_elo = raise_elo second_elo }
        else record { first_elo = first_elo; second_elo = second_elo })
