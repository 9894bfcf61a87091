-- ===== src/Game/Room.antt =====
-- server/game/Room.h and Room.cc: the rooms of matched players.
pub mod Invariant
pub mod Selection
use arena_game.Prelude.{
  ℕ, ◌+◌, ◌%◌, ◌^◌, Bool, true, false, not, ◌&&◌, ◌||◌, Option, none, some, [], ◌==◌, nat_eq,
  if◌then◌else◌,
}
use arena_game.Prelude.Map.{Map, lookup, insert, emplace, erase}
use arena_game.Wire.Messages.{HeroType, no_hero, warrior, mage, archer}

pub record Room : Type 0 where
  pub room_id : ℕ
  pub first_user_id : ℕ
  pub second_user_id : ℕ
  pub first_hero : HeroType
  pub second_hero : HeroType

pub record RoomService : Type 0 where
  pub next_room_id : ℕ
  pub rooms : Map ℕ Room

abbrev pub empty_room_service : RoomService
empty_room_service = record { next_room_id = 1; rooms = [] }

unfoldable pub is_selectable_hero : HeroType → Bool
is_selectable_hero hero_type = hero_type == warrior || hero_type == mage || hero_type == archer

-- `Room{roomId, firstUserId, secondUserId}`
abbrev pub new_room : ℕ → ℕ → ℕ → Room
new_room room_id first_user_id second_user_id = record {
  room_id = room_id;
  first_user_id = first_user_id;
  second_user_id = second_user_id;
  first_hero = no_hero;
  second_hero = no_hero;
}

-- `nextRoomId_++` on a `uint64_t`.
unfoldable pub create : ℕ → ℕ → RoomService → RoomService × ℕ
create first_user_id second_user_id s =
    if first_user_id == 0 || second_user_id == 0 || first_user_id == second_user_id
    then (s, 0)
    else (
      record {
        next_room_id = (s.next_room_id + 1) % 2 ^ 64;
        rooms =
            emplace s.next_room_id (new_room s.next_room_id first_user_id second_user_id) s.rooms;
      },
      s.next_room_id,
    )

unfoldable pub find : ℕ → RoomService → Option Room
find room_id s = lookup room_id s.rooms

unfoldable pub remove : ℕ → RoomService → RoomService × Bool
remove room_id s = (
  record s { rooms = erase room_id s.rooms },
  elim (lookup room_id s.rooms) [ none ↦ false | some _ ↦ true ],
)

-- The write through `it->second`.
abbrev pub put_room : ℕ → Room → RoomService → RoomService
put_room room_id room s = record s { rooms = insert room_id room s.rooms }

-- `selectHero` once the room is found.
unfoldable pub select_in_room : ℕ → ℕ → HeroType → Room → RoomService → RoomService × Bool
select_in_room room_id user_id hero_type room s =
    if room.first_user_id == user_id
    then (if not (room.first_hero == no_hero)
        then (s, false)
        else (put_room room_id (record room { first_hero = hero_type }) s, true))
    else (if room.second_user_id == user_id
        then (if not (room.second_hero == no_hero)
            then (s, false)
            else (put_room room_id (record room { second_hero = hero_type }) s, true))
        else (s, false))

unfoldable pub select_hero : ℕ → ℕ → HeroType → RoomService → RoomService × Bool
unfolding is_selectable_hero select_in_room
select_hero room_id user_id hero_type s =
    if not (is_selectable_hero hero_type) then (s, false) else elim (lookup room_id s.rooms) [
      | none ↦ (s, false)
      | some room ↦ select_in_room room_id user_id hero_type room s
    ]

unfoldable pub both_heroes_selected : ℕ → RoomService → Bool
unfolding find
both_heroes_selected room_id s = elim (find room_id s) [
  | none ↦ false
  | some room ↦ not (room.first_hero == no_hero) && not (room.second_hero == no_hero)
]
