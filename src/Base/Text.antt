-- ===== src/Base/Text.antt =====
-- Text as bytes: literals, `std::to_string`, prefixes and substrings.
use Prim.Native.Nat.{ℕ, zero, suc, ◌+◌, ◌/◌, ◌%◌}
use Prim.Native.Char.{code}
use Prim.Native.String.{String}
use mathlib.Core.Bool.{Bool, true, false, ◌&&◌}
use mathlib.Core.List.{List, [], ◌∷◌}
use elykseer_cpp.Base.Tests.{ltb, ◌==◌, if◌then◌else◌}
use elykseer_cpp.Base.Lists.{take, drop}

abbrev pub codes : String → List ℕ
codes String.[] = []
codes (String.◌∷◌ c s) = code c ∷ codes s

-- The decimal digits of n, with one round of fuel for each.
unfoldable pub decimal : ℕ → ℕ → List ℕ → List ℕ
decimal zero n acc = acc
decimal (suc fuel) n acc =
    let rest = decimal fuel (n / 10) ((48 + n % 10) ∷ acc) in
    if ltb n 10 then (48 + n) ∷ acc else rest

unfoldable pub to_string : ℕ → List ℕ
unfolding decimal
to_string n = decimal (n + 1) n []

unfoldable pub starts_with : List ℕ → List ℕ → Bool
starts_with s [] = true
starts_with [] (y ∷ p) = false
starts_with (x ∷ s) (y ∷ p) = x == y && starts_with s p

abbrev pub substr : List ℕ → ℕ → ℕ → List ℕ
substr s p n = take n (drop p s)
