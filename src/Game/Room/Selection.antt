-- ===== src/Game/Room/Selection.antt =====
-- Hero selection, server/game/Room.cc: who may select, and what stays.
use arena_game.Prelude.{
  ℕ, ◌≤◌, ◌≡◌, ◌≢◌, some, true, arith, if◌then◌else◌, ◌⊎◌, inl, inr, Option-cases, ◌==◌, nat_eq,
  false, ◌↔◌, ◌&&◌, not, ap, ◌∙◌,
}
use arena_game.Prelude.Map.{lookup, lookup-insert, lookup-emplace}
use arena_game.Wire.Messages.{HeroType, no_hero, warrior, archer}
use arena_game.Game.Room.{
  Room, RoomService, new_room, create, find, select_hero, is_selectable_hero, both_heroes_selected,
  put_room,
}
use arena_game.Game.Room.Invariant.{IsValid, next-free}

-- The user has a seat in the room whose hero is open. A user in both seats is the first.
abbrev pub HasOpenSeat : ℕ → Room → Type 0
HasOpenSeat user_id room =
    ((room.first_user_id ≡ user_id) × (room.first_hero ≡ no_hero))
    ⊎ ((room.first_user_id ≢ user_id)
        × (room.second_user_id ≡ user_id)
        × (room.second_hero ≡ no_hero))

-- `selectHero` accepts exactly one of the three heroes, from a user with an open seat in a room
-- that exists.
pub select_hero-accepts :
    (i user_id : ℕ) (hero_type : HeroType) (s : RoomService)
    → ((select_hero i user_id hero_type s).1 ≡ true) ↔ (
        (warrior ≤ hero_type)
        × (hero_type ≤ archer)
        × ((room : Room) × (find i s ≡ some room) × HasOpenSeat user_id room))
unfolding select_hero find
select_hero-accepts i user_id hero_type s = elim (Option-cases (lookup i s.rooms)) [
  | inl e ↦ (λ h. ground arith, λ (lo, hi, (room, p, q)). cc)
  | inr (room, e) ↦ (
    λ h. (ground arith, ground arith, (room, e, ground arith)),
    λ (lo, hi, (other, p, q)). let same : other ≡ room = cc in ground arith,
  )
]

-- What a selection writes.
abbrev chosen : ℕ → HeroType → Room → Room
chosen user_id hero_type room =
    if room.first_user_id == user_id
    then record room { first_hero = hero_type }
    else record room { second_hero = hero_type }

lookup-select_hero :
    (i j user_id : ℕ) (hero_type : HeroType) (s : RoomService) (room : Room)
    → lookup j s.rooms ≡ some room
    → lookup j (select_hero i user_id hero_type s).0.rooms
      ≡ some (
          if (select_hero i user_id hero_type s).1 && (i == j)
          then chosen user_id hero_type room
          else room)
unfolding select_hero
lookup-select_hero i j user_id hero_type s room e = elim (Option-cases (lookup i s.rooms)) [
  | inl none_there ↦ ground arith
  | inr (found, there) ↦ ground (
    arith,
    lookup-insert i j (record found { first_hero = hero_type }) s.rooms,
    lookup-insert i j (record found { second_hero = hero_type }) s.rooms,
  )
]

open_seat :
    (i j user_id : ℕ) (hero_type : HeroType) (s : RoomService) (room : Room)
    → lookup j s.rooms ≡ some room
    → ((select_hero i user_id hero_type s).1 && (i == j)) ≡ true
    → if room.first_user_id == user_id
      then room.first_hero ≡ no_hero
      else room.second_hero ≡ no_hero
unfolding select_hero
open_seat i j user_id hero_type s room e t = elim (Option-cases (lookup i s.rooms)) [
  | inl none_there ↦ ground arith
  | inr (found, there) ↦ ground (arith, e, there, ap (λ (k : ℕ). lookup k s.rooms))
]

-- A room stays, with its two players, whatever anyone selects in any room, and a hero that was
-- selected in it stays too.
pub select_hero-keeps :
    (i j user_id : ℕ) (hero_type : HeroType) (s : RoomService) (room : Room)
    → find j s ≡ some room
    → (after : Room) × (find j (select_hero i user_id hero_type s).0 ≡ some after)
      × (after.first_user_id ≡ room.first_user_id)
      × (after.second_user_id ≡ room.second_user_id)
      × ((room.first_hero ≡ no_hero) ⊎ (after.first_hero ≡ room.first_hero))
      × ((room.second_hero ≡ no_hero) ⊎ (after.second_hero ≡ room.second_hero))
unfolding find
select_hero-keeps i j user_id hero_type s room e = (
  if (select_hero i user_id hero_type s).1 && (i == j) then chosen user_id hero_type room else room,
  lookup-select_hero i j user_id hero_type s room e,
  ground arith,
  ground arith,
  ground (arith, open_seat i j user_id hero_type s room e),
  ground (arith, open_seat i j user_id hero_type s room e),
)

lookup-put_room :
    (i : ℕ) (room : Room) (t : RoomService) → lookup i (put_room i room t).rooms ≡ some room
lookup-put_room i room t = ground (arith, lookup-insert i i room t.rooms)

module _ (i a b : ℕ) (s : RoomService) (distinct : a ≢ b) where
  -- The room of `a` and `b` with the heroes `x` and `y`.
  abbrev seats : HeroType → HeroType → Room
  seats x y = record (new_room i a b) { first_hero = x; second_hero = y }

  select_first :
      (x y : HeroType) (t : RoomService)
      → is_selectable_hero x ≡ true
      → lookup i t.rooms ≡ some (seats no_hero y)
      → select_hero i a x t ≡ (put_room i (seats x y) t, true)
  unfolding select_hero
  select_first x y t ok e = ground (arith, ok, e)

  select_second :
      (x y : HeroType) (t : RoomService)
      → is_selectable_hero y ≡ true
      → lookup i t.rooms ≡ some (seats x no_hero)
      → select_hero i b y t ≡ (put_room i (seats x y) t, true)
  unfolding select_hero
  select_second x y t ok e = ground (arith, ok, e)

  ready :
      (x y : HeroType) (t : RoomService)
      → lookup i t.rooms ≡ some (seats x y)
      → both_heroes_selected i t ≡ (not (x == no_hero) && not (y == no_hero))
  unfolding both_heroes_selected
  ready x y t e = rw (e, both_heroes_selected)

  selectable-ne : (x : HeroType) → is_selectable_hero x ≡ true → (x == no_hero) ≡ false
  unfolding is_selectable_hero
  selectable-ne x h = ground arith

  either_order :
      (x y : HeroType) (t : RoomService)
      → is_selectable_hero x ≡ true
      → is_selectable_hero y ≡ true
      → lookup i t.rooms ≡ some (seats no_hero no_hero)
      → let one : RoomService = (select_hero i a x t).0 in
        let other : RoomService = (select_hero i b y t).0 in
        (both_heroes_selected i t ≡ false)
        × (both_heroes_selected i one ≡ false)
        × (both_heroes_selected i other ≡ false)
        × (both_heroes_selected i (select_hero i b y one).0 ≡ true)
        × (both_heroes_selected i (select_hero i a x other).0 ≡ true)
  either_order x y t hx hy e =
      let one : RoomService = put_room i (seats x no_hero) t in
      let other : RoomService = put_room i (seats no_hero y) t in
      let at_one : lookup i one.rooms ≡ some (seats x no_hero) = lookup-put_room i _ t in
      let at_other : lookup i other.rooms ≡ some (seats no_hero y) = lookup-put_room i _ t in
      let (nx, ny) : ((x == no_hero) ≡ false) × ((y == no_hero) ≡ false) =
        (selectable-ne x hx, selectable-ne y hy) in
      rw (select_first x no_hero t hx e, select_second no_hero y t hy e)
        (rw (select_second x y one hy at_one, select_first x y other hx at_other)
          (
            ready no_hero no_hero t e,
            ready x no_hero one at_one ∙ rw nx,
            ready no_hero y other at_other,
            ready x y (put_room i (seats x y) one) (lookup-put_room i _ one) ∙ rw (nx, ny),
            ready x y (put_room i (seats x y) other) (lookup-put_room i _ other) ∙ rw (nx, ny),
          ))

create_lem :
    (a b : ℕ) (s : RoomService)
    → IsValid s
    → a ≢ 0
    → b ≢ 0
    → a ≢ b
    → ((create a b s).1 ≡ s.next_room_id)
      × (lookup s.next_room_id (create a b s).0.rooms ≡ some (new_room s.next_room_id a b))
unfolding create
create_lem a b s v ha hb hab = ground (
  arith,
  lookup-emplace s.next_room_id s.next_room_id (new_room s.next_room_id a b) s.rooms
      (next-free s v),
)

-- Where the rooms are valid, a new room of two different users that are not 0 is ready when both
-- have selected one of the three heroes, in either order, and not before.
pub both_heroes_selected-select_hero :
    (a b : ℕ) (x y : HeroType) (s : RoomService)
    → IsValid s
    → a ≢ 0
    → b ≢ 0
    → a ≢ b
    → is_selectable_hero x ≡ true
    → is_selectable_hero y ≡ true
    → let made : RoomService × ℕ = create a b s in
      let i : ℕ = made.1 in
      let one : RoomService = (select_hero i a x made.0).0 in
      let other : RoomService = (select_hero i b y made.0).0 in
      (both_heroes_selected i made.0 ≡ false)
      × (both_heroes_selected i one ≡ false)
      × (both_heroes_selected i other ≡ false)
      × (both_heroes_selected i (select_hero i b y one).0 ≡ true)
      × (both_heroes_selected i (select_hero i a x other).0 ≡ true)
both_heroes_selected-select_hero a b x y s v ha hb hab hx hy =
    let (e, made) = create_lem a b s v ha hb hab in
    rw e (either_order s.next_room_id a b s hab x y (create a b s).0 hx hy made)
