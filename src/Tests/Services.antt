-- ===== src/Tests/Services.antt =====
-- The buffer, the rooms and the sessions at concrete inputs.
use arena_game.Prelude.{
  ℕ, ◌≤◌, ◌≡◌, ◌↔◌, ◌⊎◌, refl, some, true, false, List, [], ◌∷◌, arith, nat_eq,
}
use arena_game.Prelude.Map.{lookup, emplace}
use arena_game.Wire.Messages.{HeroType, no_hero, warrior, mage, archer}
use arena_game.Net.Buffer.{make_buffer, readable_bytes, peek}
use arena_game.Net.Buffer.Queue.{Operation, appending, retrieving, run_buffer, run_buffer-run_queue}
use arena_game.Game.Room.{
  Room, RoomService, empty_room_service, create, remove, select_hero, find, is_selectable_hero,
  both_heroes_selected,
}
use arena_game.Game.Room.Invariant as Rooms
use arena_game.Game.Room.Invariant.{room_operations-IsValid}
use arena_game.Game.Room.Selection.{
  HasOpenSeat, select_hero-accepts, select_hero-keeps, both_heroes_selected-select_hero,
}
use arena_game.Game.Session as S
use arena_game.Game.Session.{
  PlayerSession, bind, find_by_connection, find_connection_by_user_id, mark_in_room, clear_room,
  empty_session_service,
}
use arena_game.Game.Session.Invariant as Sessions
use arena_game.Game.Session.Invariant.{session_operations-IsValid}
use arena_game.Tests.Data.{logins, logins-IsValid, empty_room_service-IsValid}

-- The buffer.
abbrev traffic : List Operation
traffic = appending (1 ∷ (2 ∷ (3 ∷ []))) ∷ (retrieving 2 ∷ (appending (4 ∷ []) ∷ []))

run_buffer-run_queue_example :
    (readable_bytes (run_buffer traffic (make_buffer 2)) ≡ 2)
    × (peek 2 (run_buffer traffic (make_buffer 2)) ≡ 3 ∷ (4 ∷ []))
run_buffer-run_queue_example = run_buffer-run_queue 2 2 traffic (omega arith)

-- Rooms.
room_operations-IsValid_example :
    ((a b : ℕ) → Rooms.IsValid (create a b empty_room_service).0)
    × ((i : ℕ) → Rooms.IsValid (remove i empty_room_service).0)
    × ((i user_id : ℕ) (hero_type : HeroType)
        → Rooms.IsValid (select_hero i user_id hero_type empty_room_service).0)
room_operations-IsValid_example =
    room_operations-IsValid empty_room_service empty_room_service-IsValid (omega arith)

abbrev one_room : RoomService
one_room = (create 1 2 empty_room_service).0

select_hero-accepts_example : ((select_hero 1 2 mage one_room).1 ≡ true) ↔ (
    (warrior ≤ mage)
    × (mage ≤ archer)
    × ((room : Room) × (find 1 one_room ≡ some room) × HasOpenSeat 2 room))
select_hero-accepts_example = select_hero-accepts 1 2 mage one_room

abbrev made : Room
made = record {
  room_id = 1;
  first_user_id = 1;
  second_user_id = 2;
  first_hero = 0;
  second_hero = 0;
}

made_there : find 1 one_room ≡ some made
unfolding find create emplace lookup
made_there = refl

select_hero-keeps_example :
    (after : Room) × (find 1 (select_hero 1 2 mage one_room).0 ≡ some after)
    × (after.first_user_id ≡ 1)
    × (after.second_user_id ≡ 2)
    × ((no_hero ≡ no_hero) ⊎ (after.first_hero ≡ no_hero))
    × ((no_hero ≡ no_hero) ⊎ (after.second_hero ≡ no_hero))
select_hero-keeps_example = select_hero-keeps 1 1 2 mage one_room made made_there

selectable : (is_selectable_hero warrior ≡ true) × (is_selectable_hero mage ≡ true)
unfolding is_selectable_hero
selectable = (refl, refl)

both_heroes_selected-select_hero_example :
    let r : RoomService × ℕ = create 1 2 empty_room_service in
    let i : ℕ = r.1 in
    let one : RoomService = (select_hero i 1 warrior r.0).0 in
    let other : RoomService = (select_hero i 2 mage r.0).0 in
    (both_heroes_selected i r.0 ≡ false)
    × (both_heroes_selected i one ≡ false)
    × (both_heroes_selected i other ≡ false)
    × (both_heroes_selected i (select_hero i 2 mage one).0 ≡ true)
    × (both_heroes_selected i (select_hero i 1 warrior other).0 ≡ true)
both_heroes_selected-select_hero_example =
    both_heroes_selected-select_hero 1 2 warrior mage empty_room_service empty_room_service-IsValid
      (omega arith) (omega arith) (omega arith) selectable.0 selectable.1

-- Sessions.
session_operations-IsValid_example :
    ((c : ℕ) (p : PlayerSession) → Sessions.IsValid (bind c p logins).0)
    × ((c : ℕ) → Sessions.IsValid (S.remove c logins))
    × ((u room_id : ℕ) → Sessions.IsValid (mark_in_room u room_id logins))
    × ((u : ℕ) → Sessions.IsValid (clear_room u logins))
session_operations-IsValid_example = session_operations-IsValid logins logins-IsValid
