-- ===== src/Prelude/Decimal.antt =====
-- fmt.Sprint of a number.
pub mod Enough
use Prim.Native.Nat.{ℕ, zero, suc, ◌/◌, ◌%◌}
use Prim.Native.String.{String, [], ◌∷◌}
use opencode_workspaces.Prelude.Tests.{ltb, if◌then◌else◌}
use opencode_workspaces.Prelude.Strings.{◌<>◌}

-- s[n:n+1]
abbrev character : ℕ → String → String
character n [] = ""
character zero (c ∷ s) = c ∷ []
character (suc n) (c ∷ s) = character n s

abbrev digit : ℕ → String
digit n = character n "0123456789"

-- At most as many digits as the fuel.
unfoldable pub decimal_within : ℕ → ℕ → String
decimal_within zero n = ""
decimal_within (suc fuel) n =
    let front = decimal_within fuel (n / 10) in
    if ltb n 10 then digit n else front <> digit (n % 10)

-- A number has no more digits than its successor counts.
unfoldable pub decimal : ℕ → String
unfolding decimal_within
decimal n = decimal_within (suc n) n
