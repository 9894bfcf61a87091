-- ===== src/Tests/Battles.antt =====
-- Battles and ratings at concrete inputs.
use arena_game.Prelude.{
  ℕ, ◌-◌, ◌<◌, ◌≡◌, ◌≢◌, ◌↔◌, ◌⊎◌, refl, none, some, true, false, [], arith, nat_eq,
}
use arena_game.Game.Room.{Room}
use arena_game.Game.Battle as B
use arena_game.Game.Battle.{
  BattleState, BattleEloResult, initial_state, start, attack, forfeit, attack_state, forfeit_state,
  hero_damage, calculate_elo, max_elo, strike,
}
use arena_game.Game.Battle.Invariant as Battles
use arena_game.Game.Battle.Invariant.{battle_operations-IsValid, initial_state-IsProper}
use arena_game.Game.Battle.Turns.{
  opponent, attack_state-accepts, attack_state-blow, play, play-ends,
}
use arena_game.Game.Battle.Rating.{IsRaised, IsLowered, calculate_elo_lem}
use arena_game.Tests.Data.{duel, battles, battles-IsValid, duel_starts}

battle_operations-IsValid_example :
    ((room : Room) → Battles.IsValid (start room battles).0)
    × ((i u : ℕ) → Battles.IsValid (attack i u battles).0)
    × ((i u : ℕ) → Battles.IsValid (forfeit i u battles).0)
    × ((i : ℕ) → Battles.IsValid (B.remove i battles).0)
battle_operations-IsValid_example = battle_operations-IsValid battles battles-IsValid

abbrev begun : BattleState
begun = initial_state duel

begun-IsProper : Battles.IsProper 1 begun
begun-IsProper = initial_state-IsProper duel [] duel_starts

attack_state-accepts_example :
    (attack_state 2 begun ≢ none) ↔ ((begun.finished ≡ false) × (begun.active_user_id ≡ 2))
attack_state-accepts_example = attack_state-accepts 1 2 begun begun-IsProper

-- The warrior's blow.
abbrev struck : BattleState
struck = record begun { second_health = 70; active_user_id = 2 }

first_blow : attack_state 1 begun ≡ some struck
unfolding attack_state
first_blow = refl

attack_state-blow_example :
    ((struck.second_health ≡ begun.second_health - hero_damage begun.first_hero)
      × (struck.first_health ≡ begun.first_health))
    × ((struck.active_user_id ≡ opponent 1 begun)
        × (struck.winner_user_id ≡ 0)
        × (0 < struck.first_health)
        × (0 < struck.second_health))
attack_state-blow_example = attack_state-blow 1 1 begun struck begun-IsProper first_blow

play-ends_example :
    let end : BattleState = play 9 begun in
    (end.finished ≡ true)
    × ((end.winner_user_id ≡ end.first_user_id) ⊎ (end.winner_user_id ≡ end.second_user_id))
play-ends_example = play-ends duel [] duel_starts

abbrev given_up : BattleState
given_up = record begun { finished = true; winner_user_id = 2; active_user_id = 0 }

gives_up : forfeit_state 1 begun ≡ some given_up
unfolding forfeit_state
gives_up = refl

-- The second player has won, and the first has hardly a rating to lose.
abbrev lost : BattleState
lost = record begun { finished = true; winner_user_id = 2; active_user_id = 0 }

calculate_elo_lem_example :
    IsLowered 10 (calculate_elo lost 10 1000).first_elo
    × IsRaised 1000 (calculate_elo lost 10 1000).second_elo
calculate_elo_lem_example = calculate_elo_lem lost 10 1000 (omega arith) (omega arith)
