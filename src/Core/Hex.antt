-- ===== src/Core/Hex.antt =====
-- The classes `[0-9a-f]` of the patterns of packages/perception/src/types.ts (a node's reference) and of
-- packages/core/src/schemas/task-checkpoint.ts (a digest).
use Prim.Native.Char.{Char, code}
use rote.Prelude.{ℕ, zero, suc, String, Bool, true, false, ◌&&◌, ◌||◌, leb}

abbrev pub is_hex : Char → Bool
is_hex c = (leb 48 (code c) && leb (code c) 57) || (leb 97 (code c) && leb (code c) 102)

unfoldable pub is_hex_of : ℕ → String → Bool
is_hex_of zero String.[] = true
is_hex_of zero (String.◌∷◌ c s) = false
is_hex_of (suc n) String.[] = false
is_hex_of (suc n) (String.◌∷◌ c s) = is_hex c && is_hex_of n s
