-- ===== src/Common/Format.antt =====
-- Texts that are made and cut: decimals, `s[:n]`, `removeprefix`, `strip`, and splitting at characters.
use Prim.Native.Nat.{ℕ, zero, suc, ◌/◌, ◌%◌, ◌<◌}
use Prim.Native.Char.{Char, code}
use Prim.Native.String.{String, ◌++◌, len, slice}
use mathlib.Core.Path.{◌≡◌}
use mathlib.Core.Bool.{Bool, true, false, ◌&&◌, ◌||◌}
use mathlib.Core.List.{List, [], ◌∷◌}
use native.Mathlib.Omega.{arith}
use text.Mathlib.Text.{starts_with}
use orchestration_system.Common.Tests.{ltb, leb, ◌==◌, if◌then◌else◌}

abbrev nth : ℕ → List String → String
nth n [] = ""
nth zero (s ∷ ss) = s
nth (suc n) (s ∷ ss) = nth n ss

abbrev digit : ℕ → String
digit n = nth n ("0" ∷ "1" ∷ "2" ∷ "3" ∷ "4" ∷ "5" ∷ "6" ∷ "7" ∷ "8" ∷ "9" ∷ [])

decimal_loop : ℕ → ℕ → String
decimal_loop zero n = ""
decimal_loop (suc fuel) n =
    let more = decimal_loop fuel (n / 10) ++ digit (n % 10) in if ltb n 10 then digit n else more

-- `str(n)`; a number has fewer digits than the fuel `n + 1`.
unfoldable pub decimal : ℕ → String
unfolding decimal_loop
decimal n = decimal_loop (suc n) n

-- More fuel changes nothing.
decimal_loop-enough : (f g n : ℕ) → n < f → n < g → decimal_loop f n ≡ decimal_loop g n
unfolding decimal_loop
decimal_loop-enough zero g n h k = absurd (omega arith)
decimal_loop-enough (suc f) zero n h k = absurd (omega arith)
decimal_loop-enough (suc f) (suc g) n h k = ground (arith, decimal_loop-enough f g (n / 10))

-- `f"{n:03d}"`
unfoldable pub pad3 : ℕ → String
unfolding decimal
pad3 n = (if ltb n 10 then "00" else if ltb n 100 then "0" else "") ++ decimal n

-- `f"{n:02d}"`
unfoldable pub pad2 : ℕ → String
unfolding decimal
pad2 n = (if ltb n 10 then "0" else "") ++ decimal n

-- `s[:n]`
unfoldable pub take_text : ℕ → String → String
take_text zero s = ""
take_text (suc n) String.[] = ""
take_text (suc n) (String.◌∷◌ c s) = String.◌∷◌ c (take_text n s)

-- `s.removeprefix(p)`
unfoldable pub remove_prefix : String → String → String
remove_prefix p s = if starts_with s p then slice s (len p) (len s) else s

abbrev is_one_of : ℕ → List ℕ → Bool
is_one_of c [] = false
is_one_of c (d ∷ ds) = c == d || is_one_of c ds

-- `c.isspace()`
unfoldable pub is_space : Char → Bool
is_space ch =
    let c = code ch in
    (leb 9 c && leb c 13)
    || (leb 28 c && leb c 32)
    || (leb 0x2000 c && leb c 0x200a)
    || is_one_of c (0x85 ∷ 0xa0 ∷ 0x1680 ∷ 0x2028 ∷ 0x2029 ∷ 0x202f ∷ 0x205f ∷ 0x3000 ∷ [])

unfoldable pub lstrip : (Char → Bool) → String → String
lstrip p String.[] = ""
lstrip p (String.◌∷◌ c s) = let rest = lstrip p s in if p c then rest else String.◌∷◌ c s

is_blank : (Char → Bool) → String → Bool
is_blank p String.[] = true
is_blank p (String.◌∷◌ c s) = p c && is_blank p s

unfoldable pub rstrip : (Char → Bool) → String → String
unfolding is_blank
rstrip p String.[] = ""
rstrip p (String.◌∷◌ c s) =
    let rest = String.◌∷◌ c (rstrip p s) in if is_blank p (String.◌∷◌ c s) then "" else rest

-- `s.strip()`
unfoldable pub strip : String → String
unfolding lstrip rstrip is_space
strip s = rstrip is_space (lstrip is_space s)

abbrev extend : Char → List String → List String
extend c [] = String.◌∷◌ c "" ∷ []
extend c (s ∷ ss) = String.◌∷◌ c s ∷ ss

-- `re.split` at each character that passes a test
unfoldable pub split_at : (Char → Bool) → String → List String
split_at p String.[] = "" ∷ []
split_at p (String.◌∷◌ c s) = let parts = split_at p s in if p c then "" ∷ parts else extend c parts
