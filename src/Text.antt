-- ===== src/Text.antt =====
-- Texts as lists of code points, and what the source's calls of `str` do to them.
use solo_dual_mode.Prelude.{
  ℕ, zero, suc, ◌+◌, ◌/◌, ◌%◌, Bool, true, false, ◌&&◌, ◌||◌, List, [], ◌∷◌, ◌++◌, map, ltb, leb,
  ◌==◌, if◌then◌else◌, Key, ℕ_discrete, ◌≡◌, refl, ap₂, arith,
}
use Prim.Native.Char.{code}
use Prim.Native.String.{String}

-- The code points of a literal.
abbrev pub codes : String → List ℕ
codes String.[] = []
codes (String.◌∷◌ c s) = code c ∷ codes s

-- `char::is_whitespace`.
abbrev pub is_whitespace : ℕ → Bool
is_whitespace ch =
    (leb 9 ch && leb ch 13)
    || (ch == 32)
    || (ch == 133)
    || (ch == 160)
    || (ch == 5760)
    || (leb 8192 ch && leb ch 8202)
    || (ch == 8232)
    || (ch == 8233)
    || (ch == 8239)
    || (ch == 8287)
    || (ch == 12288)

unfoldable pub trim_start : List ℕ → List ℕ
trim_start [] = []
trim_start (ch ∷ text) = elim (is_whitespace ch) [ true ↦ trim_start text | false ↦ ch ∷ text ]

-- A text without the white space at its end.
unfoldable pub trim_end : List ℕ → List ℕ
trim_end [] = []
trim_end (ch ∷ text) = keep_or_drop (trim_end text)
  where
    keep_or_drop : List ℕ → List ℕ
    keep_or_drop [] = if is_whitespace ch then [] else ch ∷ []
    keep_or_drop (next ∷ rest) = ch ∷ next ∷ rest

unfoldable pub trim : List ℕ → List ℕ
trim text = trim_end (trim_start text)

abbrev pub is_empty : {A : Type 0} → List A → Bool
is_empty [] = true
is_empty (x ∷ xs) = false

abbrev pub ascii_lower : ℕ → ℕ
ascii_lower ch = if leb b'A' ch && leb ch b'Z' then ch + 32 else ch

unfoldable pub to_ascii_lowercase : List ℕ → List ℕ
to_ascii_lowercase text = map ascii_lower text

unfoldable pub starts_with : List ℕ → List ℕ → Bool
starts_with text [] = true
starts_with [] (p ∷ ps) = false
starts_with (ch ∷ text) (p ∷ ps) = elim (p == ch) [ true ↦ starts_with text ps | false ↦ false ]

unfoldable pub contains : List ℕ → List ℕ → Bool
contains [] pattern = starts_with [] pattern
contains (ch ∷ text) pattern = elim (starts_with (ch ∷ text) pattern) [
  | true ↦ true
  | false ↦ contains text pattern
]

-- The decimal digits of a number of at most 20 digits, which a 64-bit number is.
unfoldable pub digits_of : ℕ → ℕ → List ℕ
digits_of zero n = []
digits_of (suc fuel) n =
    let rest = digits_of fuel (n / 10) in
    if ltb n 10 then (b'0' + n) ∷ [] else rest ++ (b'0' + n % 10) ∷ []

abbrev pub decimal : ℕ → List ℕ
decimal n = digits_of 20 n

-- Texts can be compared, so they can be keys.
pub text_head : (a b : ℕ) (x y : List ℕ) → a ∷ x ≡ b ∷ y → a ≡ b
text_head a b x y e = ground (arith, e)

pub text_tail : (a b : ℕ) (x y : List ℕ) → a ∷ x ≡ b ∷ y → x ≡ y
text_tail a b x y e = ground (arith, e)

unfoldable pub text_dec : Discrete (List ℕ)
text_dec [] [] = yes refl
text_dec [] (b ∷ y) = no (λ e. ground (arith, e))
text_dec (a ∷ x) [] = no (λ e. ground (arith, e))
text_dec (a ∷ x) (b ∷ y) = elim (ℕ_discrete a b) [
  | no differ ↦ no (λ e. differ (text_head a b x y e))
  | yes same ↦ elim (text_dec x y) [
    | no differ ↦ no (λ e. differ (text_tail a b x y e))
    | yes equal ↦ yes (ap₂ (λ c z. c ∷ z) same equal)
  ]
]

instance abbrev pub text_key : Key (List ℕ)
text_key = record { dec = text_dec }
