-- ===== src/Prelude/Text.antt =====
-- `not text.strip()`: whether a Python text has only white space.
use Prim.Native.Nat.{ℕ}
use Prim.Native.Char.{code}
use Prim.Native.String.{String}
use mathlib.Core.Bool.{Bool, true, ◌&&◌, ◌||◌}
use enterprise_agent_harness.Prelude.Tests.{leb}
use enterprise_agent_harness.Prelude.Classes.{nat_eq, ◌==◌}

-- The code points for which `str.isspace` holds.
abbrev is_space : ℕ → Bool
is_space c =
    leb 9 c && leb c 13
    || leb 28 c && leb c 32
    || c == 0x85
    || c == 0xa0
    || c == 0x1680
    || leb 0x2000 c && leb c 0x200a
    || leb 0x2028 c && leb c 0x2029
    || c == 0x202f
    || c == 0x205f
    || c == 0x3000

unfoldable pub blank : String → Bool
blank String.[] = true
blank (String.◌∷◌ c s) = is_space (code c) && blank s
