-- ===== src/Game/Room/Invariant.antt =====
-- What holds of the rooms after any operation of server/game/Room.cc.
use arena_game.Prelude.{
  ℕ, ◌+◌, ◌^◌, ◌≤◌, ◌<◌, ◌≡◌, ◌≢◌, none, some, arith, inl, inr, Option-cases, nat_eq,
}
use arena_game.Prelude.Map.{lookup, lookup-insert, lookup-erase, lookup-emplace}
use arena_game.Wire.Messages.{HeroType}
use arena_game.Game.Room.{Room, RoomService, new_room, create, remove, select_hero}

-- A room under its own number, of two different users.
pub record IsProper (next room_id : ℕ) (room : Room) : Type 0 where
  pub own_id : room.room_id ≡ room_id
  pub not_zero : 0 < room_id
  pub issued : room_id < next
  pub first_given : 0 < room.first_user_id
  pub second_given : 0 < room.second_user_id
  pub distinct : room.first_user_id ≢ room.second_user_id

pub record IsValid (s : RoomService) : Type 0 where
  pub started : 0 < s.next_room_id
  pub proper : (i : ℕ) (room : Room) → lookup i s.rooms ≡ some room → IsProper s.next_room_id i room

IsProper-mono : {m n i : ℕ} {room : Room} → m ≤ n → IsProper m i room → IsProper n i room
IsProper-mono h p = record {
  own_id = p.own_id;
  not_zero = p.not_zero;
  issued = omega arith;
  first_given = p.first_given;
  second_given = p.second_given;
  distinct = p.distinct;
}

-- The next number is free.
pub next-free : (s : RoomService) → IsValid s → lookup s.next_room_id s.rooms ≡ none
next-free s v = elim (Option-cases (lookup s.next_room_id s.rooms)) [
  | inl e ↦ e
  | inr (room, e) ↦ absurd (omega (arith, (v.proper s.next_room_id room e).issued))
]

create-IsProper :
    (a b : ℕ) (s : RoomService)
    → s.next_room_id + 1 < 2 ^ 64
    → IsValid s
    → (i : ℕ) (room : Room) → lookup i (create a b s).0.rooms ≡ some room
    → IsProper (create a b s).0.next_room_id i room
unfolding create
create-IsProper a b s small v i room = ground (
  arith,
  lookup-emplace s.next_room_id i (new_room s.next_room_id a b) s.rooms (next-free s v),
  v.proper i room,
)

pub create-IsValid :
    (a b : ℕ) (s : RoomService) → s.next_room_id + 1 < 2 ^ 64 → IsValid s → IsValid (create a b s).0
unfolding create
create-IsValid a b s small v = record {
  started = ground arith;
  proper = create-IsProper a b s small v;
}

pub remove-IsValid : (i : ℕ) (s : RoomService) → IsValid s → IsValid (remove i s).0
unfolding remove
remove-IsValid i s v = record {
  started = v.started;
  proper = λ j room e. v.proper j room (ground (arith, lookup-erase i j s.rooms));
}

select_hero-IsProper :
    (i user_id : ℕ) (hero_type : HeroType) (s : RoomService)
    → IsValid s
    → (j : ℕ) (room : Room) → lookup j (select_hero i user_id hero_type s).0.rooms ≡ some room
    → IsProper s.next_room_id j room
unfolding select_hero
select_hero-IsProper i user_id hero_type s v j room = elim (Option-cases (lookup i s.rooms)) [
  | inl e ↦ ground (arith, v.proper j room)
  | inr (found, e) ↦ ground (
    arith,
    lookup-insert i j (record found { first_hero = hero_type }) s.rooms,
    lookup-insert i j (record found { second_hero = hero_type }) s.rooms,
    v.proper j room,
    v.proper i found e,
  )
]

select_hero-next :
    (i user_id : ℕ) (hero_type : HeroType) (s : RoomService)
    → (select_hero i user_id hero_type s).0.next_room_id ≡ s.next_room_id
unfolding select_hero
select_hero-next i user_id hero_type s = ground arith

pub select_hero-IsValid :
    (i user_id : ℕ) (hero_type : HeroType) (s : RoomService)
    → IsValid s
    → IsValid (select_hero i user_id hero_type s).0
select_hero-IsValid i user_id hero_type s v =
    let same = select_hero-next i user_id hero_type s in
    record {
      started = omega (arith, v.started);
      proper = λ j room e. rw same (select_hero-IsProper i user_id hero_type s v j room e);
    }

-- Where the rooms are valid and the number after the next fits 64 bits, they still are valid after
-- any operation: each under its own number, that was given out, with two different users that are
-- not 0.
pub room_operations-IsValid :
    (s : RoomService)
    → IsValid s
    → s.next_room_id + 1 < 2 ^ 64
    → ((a b : ℕ) → IsValid (create a b s).0)
      × ((i : ℕ) → IsValid (remove i s).0)
      × ((i user_id : ℕ) (hero_type : HeroType) → IsValid (select_hero i user_id hero_type s).0)
room_operations-IsValid s v small = (
  λ a b. create-IsValid a b s small v,
  λ i. remove-IsValid i s v,
  λ i user_id hero_type. select_hero-IsValid i user_id hero_type s v,
)
