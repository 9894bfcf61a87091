-- ===== src/Prelude/Float.antt =====
-- `float` values that are not negative, as IEEE 754 rounds them: a multiple of 2 ^ -149, by its
-- factor. The program's values stay far below the largest float, so there is no infinity.
use Prim.Native.Nat.{ℕ, zero, suc, ◌+◌, ◌*◌, ◌/◌, ◌%◌, ◌^◌}
use arena_game.Prelude.Tests.{ltb, nat_beq, if◌then◌else◌}

abbrev pub Float : Type 0
Float = ℕ

-- The factor of 1.
unfoldable pub one : ℕ
one = 2 ^ 149

-- The distance of the floats around `p / q`: the least power of two, from `u` on, with a
-- significand below 2 ^ 24.
unfoldable pub find_ulp : ℕ → ℕ → ℕ → ℕ → ℕ
find_ulp zero u p q = u
find_ulp (suc fuel) u p q =
    let wider = find_ulp fuel (2 * u) p q in if ltb p (2 ^ 24 * u * q) then u else wider

-- `p / d` to the nearest integer, and to the even one of two.
unfoldable pub round_even : ℕ → ℕ → ℕ
round_even p d =
    if ltb (2 * (p % d)) d
    then p / d
    else (if ltb d (2 * (p % d))
        then p / d + 1
        else (if nat_beq (p / d % 2) 0 then p / d else p / d + 1))

-- The float nearest to the factor `p / q`. 512 doublings are more than any exponent needs.
unfoldable pub round_div : ℕ → ℕ → Float
unfolding find_ulp round_even
round_div p q = let u = find_ulp 512 1 p q in round_even p (q * u) * u

-- `static_cast<float>(n)`
unfoldable pub of_ℕ : ℕ → Float
unfolding round_div one
of_ℕ n = round_div (n * one) 1

unfoldable pub add : Float → Float → Float
unfolding round_div
add a b = round_div (a + b) 1

unfoldable pub mul : Float → Float → Float
unfolding round_div one
mul a b = round_div (a * b) one

unfoldable pub div : Float → Float → Float
unfolding round_div one
div a b = round_div (a * one) b
