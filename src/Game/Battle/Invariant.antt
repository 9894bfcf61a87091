-- ===== src/Game/Battle/Invariant.antt =====
-- What holds of every battle of server/game/BattleService.cc.
use arena_game.Prelude.{
  ℕ, ◌<◌, ◌≤◌, ◌≡◌, ◌≢◌, ◌⊎◌, some, true, false, arith, inl, inr, Option-cases, nat_eq,
}
use arena_game.Prelude.Map.{lookup, lookup-insert, lookup-erase, lookup-emplace}
use arena_game.Game.Room.{Room}
use arena_game.Game.Battle.{
  BattleState, BattleService, hero_damage, start, remove, attack_state, attack, forfeit_state,
  forfeit, initial_state,
}

-- Two different players with a hero each; while the battle runs both stand and one of them is at
-- turn, and when it is over one of them has won.
pub record IsProper (room_id : ℕ) (b : BattleState) : Type 0 where
  pub own_id : b.room_id ≡ room_id
  pub first_given : 0 < b.first_user_id
  pub second_given : 0 < b.second_user_id
  pub distinct : b.first_user_id ≢ b.second_user_id
  pub first_armed : 0 < hero_damage b.first_hero
  pub second_armed : 0 < hero_damage b.second_hero
  pub first_bounded : b.first_health ≤ 100
  pub second_bounded : b.second_health ≤ 100
  pub running :
      b.finished ≡ false
      → (0 < b.first_health)
        × (0 < b.second_health)
        × (b.winner_user_id ≡ 0)
        × ((b.active_user_id ≡ b.first_user_id) ⊎ (b.active_user_id ≡ b.second_user_id))
  pub over :
      b.finished ≡ true
      → (b.active_user_id ≡ 0)
        × ((b.winner_user_id ≡ b.first_user_id) ⊎ (b.winner_user_id ≡ b.second_user_id))

abbrev pub IsValid : BattleService → Type 0
IsValid battles = (i : ℕ) (b : BattleState) → lookup i battles ≡ some b → IsProper i b

pub attack_state-IsProper :
    (i u : ℕ) (b b' : BattleState) → IsProper i b → attack_state u b ≡ some b' → IsProper i b'
unfolding attack_state
attack_state-IsProper i u b b' p e = record {
  own_id = ground arith;
  first_given = ground arith;
  second_given = ground arith;
  distinct = ground arith;
  first_armed = ground arith;
  second_armed = ground arith;
  first_bounded = ground arith;
  second_bounded = ground arith;
  running = λ h. ground arith;
  over = λ h. ground arith;
}

pub forfeit_state-IsProper :
    (i u : ℕ) (b b' : BattleState) → IsProper i b → forfeit_state u b ≡ some b' → IsProper i b'
unfolding forfeit_state
forfeit_state-IsProper i u b b' p e = ground arith

pub initial_state-IsProper :
    (room : Room) (battles : BattleService)
    → (start room battles).1 ≡ true
    → IsProper room.room_id (initial_state room)
unfolding start
initial_state-IsProper room battles h = ground arith

pub start-IsValid :
    (room : Room) (battles : BattleService) → IsValid battles → IsValid (start room battles).0
unfolding start
start-IsValid room battles v i b e =
    let i' : ℕ = room.room_id in
    elim (Option-cases (lookup room.room_id battles)) [
      | inl free ↦ ground (
        arith,
        e,
        free,
        initial_state-IsProper room battles,
        lookup-emplace room.room_id i (initial_state room) battles free,
        v i b,
      )
      | inr (old, taken) ↦ ground (arith, e, taken, v i b)
    ]

pub attack-IsValid :
    (room_id u : ℕ) (battles : BattleService)
    → IsValid battles
    → IsValid (attack room_id u battles).0
unfolding attack
attack-IsValid room_id u battles v i b e = elim (Option-cases (lookup room_id battles)) [
  | inl gone ↦ ground (arith, e, gone, v i b)
  | inr (old, found) ↦ elim (Option-cases (attack_state u old)) [
    | inl refused ↦ ground (arith, e, found, refused, v i b)
    | inr (new, done) ↦ ground (
      arith,
      e,
      found,
      done,
      lookup-insert room_id i new battles,
      attack_state-IsProper room_id u old new (v room_id old found) done,
      v i b,
    )
  ]
]

pub forfeit-IsValid :
    (room_id u : ℕ) (battles : BattleService)
    → IsValid battles
    → IsValid (forfeit room_id u battles).0
unfolding forfeit
forfeit-IsValid room_id u battles v i b e = elim (Option-cases (lookup room_id battles)) [
  | inl gone ↦ ground (arith, e, gone, v i b)
  | inr (old, found) ↦ elim (Option-cases (forfeit_state u old)) [
    | inl refused ↦ ground (arith, e, found, refused, v i b)
    | inr (new, done) ↦ ground (
      arith,
      e,
      found,
      done,
      lookup-insert room_id i new battles,
      forfeit_state-IsProper room_id u old new (v room_id old found) done,
      v i b,
    )
  ]
]

pub remove-IsValid :
    (room_id : ℕ) (battles : BattleService) → IsValid battles → IsValid (remove room_id battles).0
unfolding remove
remove-IsValid room_id battles v i b e = v i b (ground (arith, e, lookup-erase room_id i battles))

-- Where every battle is proper, every battle still is after any operation.
pub battle_operations-IsValid :
    (battles : BattleService)
    → IsValid battles
    → ((room : Room) → IsValid (start room battles).0)
      × ((i u : ℕ) → IsValid (attack i u battles).0)
      × ((i u : ℕ) → IsValid (forfeit i u battles).0)
      × ((i : ℕ) → IsValid (remove i battles).0)
battle_operations-IsValid battles v = (
  λ room. start-IsValid room battles v,
  λ i u. attack-IsValid i u battles v,
  λ i u. forfeit-IsValid i u battles v,
  λ i. remove-IsValid i battles v,
)
