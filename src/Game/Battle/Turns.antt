-- ===== src/Game/Battle/Turns.antt =====
-- The course of a battle of server/game/BattleService.cc: turns, blows and the end.
use arena_game.Prelude.{
  ℕ, zero, suc, ◌+◌, ◌-◌, ◌/◌, ◌<◌, ◌≤◌, ◌≡◌, ◌≢◌, ◌⊎◌, ◌↔◌, none, some, true, false, arith,
  if◌then◌else◌, inl, inr, Option-cases, ◌==◌, nat_eq, List, [], ◌∷◌,
}
use arena_game.Game.Room.{Room}
use arena_game.Game.Battle.{
  BattleState, BattleService, hero_damage, start, attack_state, forfeit_state, initial_state,
}
use arena_game.Game.Battle.Invariant.{IsProper, attack_state-IsProper, initial_state-IsProper}

-- The player who is not `u`.
abbrev pub opponent : ℕ → BattleState → ℕ
opponent u b = if u == b.first_user_id then b.second_user_id else b.first_user_id

-- In a proper battle an attack is accepted exactly from the player at turn while the battle runs.
pub attack_state-accepts :
    (i u : ℕ) (b : BattleState)
    → IsProper i b
    → (attack_state u b ≢ none) ↔ ((b.finished ≡ false) × (b.active_user_id ≡ u))
unfolding attack_state
attack_state-accepts i u b p = (λ h. (ground arith, ground arith), λ (f, a) e. ground arith)

-- An attack that is accepted in a proper battle takes the hero's damage off the opponent's health,
-- down to 0, and leaves the attacker's. If the battle is over then, the attacker has won, nobody
-- is at turn, and a health is 0; else it is the opponent's turn, nobody has won, and both stand.
pub attack_state-blow :
    (i u : ℕ) (b b' : BattleState)
    → IsProper i b
    → attack_state u b ≡ some b'
    → (if u == b.first_user_id
        then (b'.second_health ≡ b.second_health - hero_damage b.first_hero)
          × (b'.first_health ≡ b.first_health)
        else (b'.first_health ≡ b.first_health - hero_damage b.second_hero)
          × (b'.second_health ≡ b.second_health))
      × (if b'.finished
          then (b'.winner_user_id ≡ u)
            × (b'.active_user_id ≡ 0)
            × ((b'.first_health ≡ 0) ⊎ (b'.second_health ≡ 0))
          else (b'.active_user_id ≡ opponent u b)
            × (b'.winner_user_id ≡ 0)
            × (0 < b'.first_health)
            × (0 < b'.second_health))
unfolding attack_state
attack_state-blow i u b b' p e = (ground arith, ground arith)

-- Blows that `health` stands, at 20 a blow.
abbrev blows : ℕ → ℕ
blows health = (health + 19) / 20

-- An upper bound on the attacks that a battle still sees.
abbrev attacks_left : BattleState → ℕ
attacks_left b = if b.finished then 0 else blows b.first_health + blows b.second_health - 1

hero_damage-ge : (h : ℕ) → 0 < hero_damage h → 20 ≤ hero_damage h
unfolding hero_damage
hero_damage-ge h p = ground arith

attacks_left-decreases :
    (i u : ℕ) (b b' : BattleState)
    → IsProper i b
    → attack_state u b ≡ some b'
    → attacks_left b' < attacks_left b
unfolding attack_state
attacks_left-decreases i u b b' p e = ground arith

-- The battle after any sequence of attempted attacks, and how many were accepted.
pub assault : List ℕ → BattleState → BattleState × ℕ
assault [] b = (b, 0)
assault (u ∷ us) b = elim (attack_state u b) [
  | none ↦ assault us b
  | some b' ↦ (let (end, n) = assault us b' in (end, n + 1))
]

assault-left :
    (i : ℕ) (us : List ℕ) (b : BattleState)
    → IsProper i b
    → IsProper i (assault us b).0
      × ((assault us b).1 + attacks_left (assault us b).0 ≤ attacks_left b)
unfolding assault
assault-left i [] b p = (p, omega arith)
assault-left i (u ∷ us) b p = elim (Option-cases (attack_state u b)) [
  | inl e ↦ rw (e, assault) (assault-left i us b p)
  | inr (b', e) ↦
      let (q, n) = assault-left i us b' (attack_state-IsProper i u b b' p e) in
      rw (e, assault) (q, omega (arith, n, attacks_left-decreases i u b b' p e))
]

-- Whoever tries to attack, in whatever order, at most nine attacks are accepted in a battle that
-- `start` has begun.
pub assault-le :
    (room : Room) (battles : BattleService) (us : List ℕ)
    → (start room battles).1 ≡ true
    → (assault us (initial_state room)).1 ≤ 9
assault-le room battles us h =
    omega (arith, assault-left room.room_id us _ (initial_state-IsProper room battles h))

-- The two players attack `n` times, each at their turn.
pub play : ℕ → BattleState → BattleState
play zero b = b
play (suc n) b = elim (attack_state b.active_user_id b) [ none ↦ b | some b' ↦ play n b' ]

play-finished :
    (i n : ℕ) (b : BattleState)
    → IsProper i b
    → attacks_left b ≤ n
    → IsProper i (play n b) × ((play n b).finished ≡ true)
unfolding play
play-finished i zero b p h = (p, ground (arith, p.running))
play-finished i (suc n) b p h = elim (Option-cases (attack_state b.active_user_id b)) [
  | inl e ↦ rw (e, play) (p, ground (arith, attack_state-accepts i b.active_user_id b p))
  | inr (b', e) ↦
      rw (e, play)
        (play-finished i n b' (attack_state-IsProper i _ b b' p e)
          (omega (arith, attacks_left-decreases i _ b b' p e)))
]

-- A battle that `start` has begun is over after nine attacks by the players at turn, if not
-- before, and one of the two players has won.
pub play-ends :
    (room : Room) (battles : BattleService)
    → (start room battles).1 ≡ true
    → let end : BattleState = play 9 (initial_state room) in
      (end.finished ≡ true)
      × ((end.winner_user_id ≡ end.first_user_id) ⊎ (end.winner_user_id ≡ end.second_user_id))
play-ends room battles h =
    let (p, f) =
      play-finished room.room_id 9 (initial_state room) (initial_state-IsProper room battles h)
        (omega arith) in
    (f, (p.over f).1)

-- A forfeit that is accepted in a proper battle ends it: the opponent has won and not the player
-- who gave up, the healths stay, and whoever then attacks or forfeits is refused.
pub forfeit_state_lem :
    (i u v : ℕ) (b b' : BattleState)
    → IsProper i b
    → forfeit_state u b ≡ some b'
    → (b'.finished ≡ true)
      × (b'.winner_user_id ≡ opponent u b)
      × (b'.winner_user_id ≢ u)
      × (b'.first_health ≡ b.first_health)
      × (b'.second_health ≡ b.second_health)
      × (attack_state v b' ≡ none)
      × (forfeit_state v b' ≡ none)
unfolding forfeit_state attack_state
forfeit_state_lem i u v b b' p e = (
  ground arith,
  ground arith,
  ground arith,
  ground arith,
  ground arith,
  ground arith,
  ground arith,
)
