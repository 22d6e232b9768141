-- ===== src/Watcher/Text.antt =====
-- The two string methods by which state.ts looks for a Move abort's name in a message. Lower case
-- is taken of ASCII letters: no other letter becomes one of those in the names that are looked for
-- but `İ`, which becomes an i and a combining dot, and no name holds a dot.
use Prim.Native.Char.{code}
use Prim.Native.String.{String}
use sonari.Prelude.{
  ℕ, ◌+◌, Bool, true, false, ◌&&◌, ◌||◌, List, [], ◌∷◌, leb, ◌==◌, if◌then◌else◌, map,
}

abbrev pub codes : String → List ℕ
codes String.[] = []
codes (String.◌∷◌ c s) = code c ∷ codes s

unfoldable pub lower_code : ℕ → ℕ
lower_code c = if leb b'A' c && leb c b'Z' then c + 32 else c

unfoldable pub to_lower_case : String → List ℕ
to_lower_case message = map lower_code (codes message)

unfoldable pub starts_with : List ℕ → List ℕ → Bool
starts_with text [] = true
starts_with [] (n ∷ needle) = false
starts_with (c ∷ text) (n ∷ needle) = c == n && starts_with text needle

unfoldable pub includes_codes : List ℕ → List ℕ → Bool
includes_codes [] needle = starts_with [] needle
includes_codes (c ∷ text) needle = starts_with (c ∷ text) needle || includes_codes text needle

unfoldable pub includes : List ℕ → String → Bool
includes text needle = includes_codes text (codes needle)
