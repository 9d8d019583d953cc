-- ===== src/Submit/Text.antt =====
-- The job number and the nonce of a submission. A text is the list of its characters, as numbers;
-- a nonce and an extranonce are ASCII, as any other text is refused by the number parser.
pub mod Hex
pub mod Nonce
mod Tests
use solo_dual_mode.Prelude.{
  ℕ, ◌+◌, ◌-◌, ◌*◌, ◌^◌, true, false, ◌&&◌, List, [], ◌∷◌, ◌++◌, Option, none, some, ltb, leb, ◌==◌,
  if◌then◌else◌, length, replicate,
}

-- A JSON value, as far as the handler tells them apart: a number has its value if it is a `u64`.
pub data Value : Type 0 where
  string : List ℕ → Value
  number : Option ℕ → Value
  other : Value

-- `char::to_digit`.
unfoldable pub to_digit : ℕ → ℕ → Option ℕ
to_digit radix ch =
    let value =
      if leb b'0' ch && leb ch b'9'
      then some (ch - b'0')
      else (if leb b'a' ch && leb ch b'z'
          then some (10 + (ch - b'a'))
          else (if leb b'A' ch && leb ch b'Z' then some (10 + (ch - b'A')) else none)) in
    elim value [ none ↦ none | some d ↦ if ltb d radix then some d else none ]

-- The loop of `u64::from_str_radix`, which refuses a foreign character and an overflow.
unfoldable pub digits : ℕ → ℕ → List ℕ → Option ℕ
digits radix acc [] = some acc
digits radix acc (ch ∷ text) = elim (to_digit radix ch) [
  | none ↦ none
  | some d ↦ elim (ltb (acc * radix + d) (2 ^ 64)) [
    | true ↦ digits radix (acc * radix + d) text
    | false ↦ none
  ]
]

-- A leading `+` is allowed, but not alone.
unfoldable pub from_str_radix : List ℕ → ℕ → Option ℕ
from_str_radix [] radix = none
from_str_radix (ch ∷ []) radix = digits radix 0 (ch ∷ [])
from_str_radix (ch ∷ next ∷ text) radix =
    if ch == b'+' then digits radix 0 (next ∷ text) else digits radix 0 (ch ∷ next ∷ text)

unfoldable pub parse_job_id : Value → Option ℕ
parse_job_id (string text) = from_str_radix text 10
parse_job_id (number n) = n
parse_job_id other = none

-- `replace("0x", "")`, from the left.
unfoldable pub remove_0x : List ℕ → List ℕ
remove_0x [] = []
remove_0x (a ∷ []) = a ∷ []
remove_0x (a ∷ b ∷ text) = elim (a == b'0' && b == b'x') [
  | true ↦ remove_0x text
  | false ↦ a ∷ remove_0x (b ∷ text)
]

-- The extranonce goes before a nonce that is short enough, which is padded with zeros on the left.
-- `none` is the panic of the subtraction.
unfoldable pub final_nonce : List ℕ → List ℕ → Option (List ℕ)
final_nonce [] nonce = some nonce
final_nonce (e ∷ extranonce) nonce =
    let len = length (e ∷ extranonce) in
    let extranonce2_len = 16 - len in
    let padded = (e ∷ extranonce) ++ (replicate (extranonce2_len - length nonce) b'0' ++ nonce) in
    if ltb 16 len then none else some (if leb (length nonce) extranonce2_len then padded else nonce)
