-- ===== src/Domain.antt =====
-- bridge-src/crates/katpool-domain/src/worker.rs and address.rs: the texts that are accepted as
-- worker names and as wallet addresses. A text is the list of its characters' code points.
pub mod Accepted
mod Tests
use solo_dual_mode.Prelude.{
  ℕ, zero, ◌+◌, Bool, true, false, ◌&&◌, ◌||◌, List, [], ◌∷◌, Option, none, some, ltb, leb, ◌==◌,
  if◌then◌else◌,
}

-- `char::len_utf8`, and `str::len`, which counts bytes.
abbrev pub len_utf8 : ℕ → ℕ
len_utf8 ch = if ltb ch 128 then 1 else (if ltb ch 2048 then 2 else (if ltb ch 65536 then 3 else 4))

unfoldable pub byte_len : List ℕ → ℕ
byte_len [] = 0
byte_len (ch ∷ text) = len_utf8 ch + byte_len text

abbrev pub is_ascii_digit : ℕ → Bool
is_ascii_digit ch = leb b'0' ch && leb ch b'9'

abbrev pub is_ascii_lowercase : ℕ → Bool
is_ascii_lowercase ch = leb b'a' ch && leb ch b'z'

abbrev pub is_ascii_alphanumeric : ℕ → Bool
is_ascii_alphanumeric ch =
    is_ascii_digit ch || is_ascii_lowercase ch || (leb b'A' ch && leb ch b'Z')

-- The first character that fails a test.
unfoldable pub first_bad : (ℕ → Bool) → List ℕ → Option ℕ
first_bad ok [] = none
first_bad ok (ch ∷ text) = elim (ok ch) [ true ↦ first_bad ok text | false ↦ some ch ]

abbrev pub max_len : ℕ
max_len = 64

unfoldable pub is_safe_worker_char : ℕ → Bool
is_safe_worker_char ch =
    is_ascii_alphanumeric ch
    || (ch == b'_')
    || (ch == b'-')
    || (ch == b'.')
    || (ch == b'#')
    || (ch == b'@')
    || (ch == b':')
    || (ch == b'+')
    || (ch == b'/')
    || (ch == 92)

pub data WorkerNameResult : Type 0 where
  worker : List ℕ → WorkerNameResult
  empty : WorkerNameResult
  too_long : ℕ → WorkerNameResult
  invalid_character : ℕ → WorkerNameResult

abbrev pub worker_of : List ℕ → Option ℕ → WorkerNameResult
worker_of s none = worker s
worker_of s (some ch) = invalid_character ch

-- `WorkerName::new`.
unfoldable pub new_worker : List ℕ → WorkerNameResult
new_worker [] = empty
new_worker (ch ∷ text) =
    if ltb max_len (byte_len (ch ∷ text))
    then too_long (byte_len (ch ∷ text))
    else worker_of (ch ∷ text) (first_bad is_safe_worker_char (ch ∷ text))

abbrev pub zkas : List ℕ → List ℕ
zkas rest = b'z' ∷ b'k' ∷ b'a' ∷ b's' ∷ rest

abbrev pub kaspa : List ℕ → List ℕ
kaspa rest = b'k' ∷ b'a' ∷ b's' ∷ b'p' ∷ b'a' ∷ rest

abbrev pub firecash : List ℕ → List ℕ
firecash rest = b'f' ∷ b'i' ∷ b'r' ∷ b'e' ∷ b'c' ∷ b'a' ∷ b's' ∷ b'h' ∷ rest

abbrev pub test : List ℕ → List ℕ
test rest = b't' ∷ b'e' ∷ b's' ∷ b't' ∷ rest

abbrev pub sim : List ℕ → List ℕ
sim rest = b's' ∷ b'i' ∷ b'm' ∷ rest

abbrev pub dev : List ℕ → List ℕ
dev rest = b'd' ∷ b'e' ∷ b'v' ∷ rest

abbrev pub accepted_prefixes : List (List ℕ)
accepted_prefixes =
    zkas (test (b':' ∷ []))
    ∷ zkas (sim (b':' ∷ []))
    ∷ zkas (dev (b':' ∷ []))
    ∷ zkas (b':' ∷ [])
    ∷ firecash (test (b':' ∷ []))
    ∷ firecash (sim (b':' ∷ []))
    ∷ firecash (dev (b':' ∷ []))
    ∷ firecash (b':' ∷ [])
    ∷ kaspa (test (b':' ∷ []))
    ∷ kaspa (b':' ∷ [])
    ∷ []

unfoldable pub strip_prefix : List ℕ → List ℕ → Option (List ℕ)
strip_prefix [] s = some s
strip_prefix (p ∷ ps) [] = none
strip_prefix (p ∷ ps) (ch ∷ s) = elim (p == ch) [ true ↦ strip_prefix ps s | false ↦ none ]

-- `find_map` of `strip_prefix`.
unfoldable pub find_body : List (List ℕ) → List ℕ → Option (List ℕ)
find_body [] s = none
find_body (p ∷ ps) s = elim (strip_prefix p s) [ none ↦ find_body ps s | some body ↦ some body ]

abbrev pub min_total_len : ℕ
min_total_len = 13

abbrev pub max_total_len : ℕ
max_total_len = 110

pub data AddressResult : Type 0 where
  address : List ℕ → AddressResult
  invalid_prefix : AddressResult
  too_short : ℕ → AddressResult
  address_too_long : ℕ → AddressResult
  invalid_address_character : ℕ → AddressResult

abbrev pub is_body_char : ℕ → Bool
is_body_char ch = is_ascii_lowercase ch || is_ascii_digit ch

abbrev pub address_of : List ℕ → Option ℕ → AddressResult
address_of s none = address s
address_of s (some ch) = invalid_address_character ch

-- The checks after the prefix.
unfoldable pub check_body : List ℕ → List ℕ → AddressResult
check_body s body =
    if ltb (byte_len s) min_total_len
    then too_short (byte_len s)
    else (if ltb max_total_len (byte_len s)
        then address_too_long (byte_len s)
        else address_of s (first_bad is_body_char body))

-- `WalletAddress::new`.
unfoldable pub new_address : List ℕ → AddressResult
new_address s = elim (find_body accepted_prefixes s) [
  | none ↦ invalid_prefix
  | some body ↦ check_body s body
]
