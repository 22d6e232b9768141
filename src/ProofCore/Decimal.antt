-- ===== src/ProofCore/Decimal.antt =====
-- `BigInt` of a decimal string, and the canonical form that the validators ask for. A string is
-- read as decimal digits, the only form that they let through; `BigInt` would also take other
-- radixes and surrounding white space, which are errors here.
use sonari.Prelude.{
  ℕ, ◌+◌, ◌-◌, ◌*◌, Bool, ◌&&◌, [], ◌∷◌, leb, ◌==◌, all, Result, ok, throw, ◌>>◌, require, not,
}
use sonari.ProofCore.Bytes.{Text}

unfoldable pub is_digit : ℕ → Bool
is_digit c = leb b'0' c && leb c b'9'

unfoldable pub decimal_value : ℕ → Text → ℕ
decimal_value acc [] = acc
decimal_value acc (c ∷ rest) = decimal_value (acc * 10 + (c - 48)) rest

-- `BigInt` of a text of digits, as `validateH3IndexString` leaves them; `BigInt("")` is 0.
unfoldable pub big_int : Text → Result ℕ
big_int value = do
  require (all is_digit value) "Cannot convert to a BigInt"
  ok (decimal_value 0 value)

-- `validateH3IndexString` of affected-cells.ts: no leading zero, and `/^\d+$/`.
unfoldable pub validate_h3_index_string : Text → Result (Unit {0})
validate_h3_index_string [] = throw "h3_index is not a valid decimal integer"
validate_h3_index_string (c ∷ []) = require (is_digit c) "h3_index is not a valid decimal integer"
validate_h3_index_string (c ∷ d ∷ rest) = do
  require (not (c == b'0')) "h3_index has leading zero"
  require (all is_digit (c ∷ d ∷ rest)) "h3_index is not a valid decimal integer"
