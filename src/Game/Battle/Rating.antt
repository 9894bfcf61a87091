-- ===== src/Game/Battle/Rating.antt =====
-- The rating after a battle, `BattleService::calculateElo`.
use arena_game.Prelude.{
  ℕ, ◌+◌, ◌≤◌, ◌≡◌, ◌≢◌, ◌⊎◌, arith, nat_eq, ◌==◌, if◌then◌else◌, refl, inl, inr, Bool-cases,
}
use arena_game.Game.Battle.{
  BattleState, BattleEloResult, calculate_elo, raise_elo, lower_elo, max_elo,
}

abbrev pub swapped : BattleEloResult → BattleEloResult
swapped r = record { first_elo = r.second_elo; second_elo = r.first_elo }

-- The winner's new rating: 25 more or the highest.
pub record IsRaised (old new : ℕ) : Type 0 where
  pub fits : new ≤ max_elo
  pub not_less : old ≤ new
  pub gain : new ≤ old + 25
  pub full : (new ≡ old + 25) ⊎ (new ≡ max_elo)

-- The loser's new rating: 25 less or 0.
pub record IsLowered (old new : ℕ) : Type 0 where
  pub fits : new ≤ max_elo
  pub not_more : new ≤ old
  pub loss : old ≤ new + 25
  pub full : (new + 25 ≡ old) ⊎ (new ≡ 0)

raise_elo-IsRaised : (x : ℕ) → x ≤ max_elo → IsRaised x (raise_elo x)
raise_elo-IsRaised x h = record {
  fits = ground arith;
  not_less = ground arith;
  gain = ground arith;
  full = ground arith;
}

lower_elo-IsLowered : (x : ℕ) → x ≤ max_elo → IsLowered x (lower_elo x)
lower_elo-IsLowered x h = record {
  fits = ground arith;
  not_more = ground arith;
  loss = ground arith;
  full = ground arith;
}

-- What the ratings are by the winner.
abbrev pub IsRating : BattleState → ℕ → ℕ → BattleEloResult → Type 0
IsRating b x y r =
    if b.winner_user_id == b.first_user_id
    then IsRaised x r.first_elo × IsLowered y r.second_elo
    else (if b.winner_user_id == b.second_user_id
        then IsLowered x r.first_elo × IsRaised y r.second_elo
        else (r.first_elo ≡ x) × (r.second_elo ≡ y))

-- Where both ratings fit 32 bits, the player who has won, the first or the second, gains 25 or
-- reaches the highest rating, and the other loses 25 or reaches 0; without a winner both ratings
-- stay. All new ratings fit 32 bits, the winner's does not fall, the loser's does not rise, and
-- neither moves by more than 25.
pub calculate_elo_lem :
    (b : BattleState) (x y : ℕ) → x ≤ max_elo → y ≤ max_elo → IsRating b x y (calculate_elo b x y)
unfolding calculate_elo
calculate_elo_lem b x y hx hy = elim (Bool-cases (b.winner_user_id == b.first_user_id)) [
  | inl e ↦ rw (e, IsRating, calculate_elo) (raise_elo-IsRaised x hx, lower_elo-IsLowered y hy)
  | inr e ↦ elim (Bool-cases (b.winner_user_id == b.second_user_id)) [
    | inl f ↦ rw (e, f, IsRating, calculate_elo) (lower_elo-IsLowered x hx, raise_elo-IsRaised y hy)
    | inr f ↦ rw (e, f, IsRating, calculate_elo) (refl, refl)
  ]
]

-- With two different players, exchanging the seats and the ratings exchanges the new ratings.
pub calculate_elo-swapped :
    (b : BattleState) (x y : ℕ)
    → b.first_user_id ≢ b.second_user_id
    → calculate_elo
        (record b { first_user_id = b.second_user_id; second_user_id = b.first_user_id })
        y
        x
      ≡ swapped (calculate_elo b x y)
unfolding calculate_elo
calculate_elo-swapped b x y d = ground arith
