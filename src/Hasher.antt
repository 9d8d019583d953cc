-- ===== src/Hasher.antt =====
-- bridge-src/bridge/src/hasher.rs: the three forms in which a rig is given a job. A hash is its bytes.
pub mod Words
pub mod Forms
mod Tests
use solo_dual_mode.Prelude.{
  ℕ, zero, suc, ◌+◌, ◌*◌, ◌/◌, ◌%◌, List, [], ◌∷◌, ◌++◌, Option, none, some, length, take, drop,
  leb, ◌==◌, if◌then◌else◌,
}
use mathlib.Core.List.{reverse}
use solo_dual_mode.Extranonce.{hex_char}

-- `u64::from_le_bytes`, `to_le_bytes` of `n` bytes, and the same with the greatest byte first.
unfoldable pub from_le_bytes : List ℕ → ℕ
from_le_bytes [] = 0
from_le_bytes (byte ∷ bytes) = byte + 256 * from_le_bytes bytes

unfoldable pub to_le_bytes : ℕ → ℕ → List ℕ
to_le_bytes zero value = []
to_le_bytes (suc n) value = value % 256 ∷ to_le_bytes n (value / 256)

unfoldable pub from_be_bytes : List ℕ → ℕ
from_be_bytes bytes = from_le_bytes (reverse bytes)

unfoldable pub to_be_bytes : ℕ → ℕ → List ℕ
to_be_bytes n value = reverse (to_le_bytes n value)

-- Two hexadecimal digits for each byte.
unfoldable pub hex : List ℕ → List ℕ
hex [] = []
hex (byte ∷ bytes) = hex_char (byte / 16) ∷ hex_char (byte % 16) ∷ hex bytes

-- `{:016x}` of a number below 2 ^ 64.
abbrev pub format_016x : ℕ → List ℕ
format_016x value = hex (to_be_bytes 8 value)

unfoldable pub format_words : List ℕ → List ℕ
format_words [] = []
format_words (word ∷ words) = format_016x word ++ format_words words

-- Up to `n` words of eight bytes. A word that is not complete is left out, with those after it.
unfoldable pub read_words : (List ℕ → ℕ) → ℕ → List ℕ → List ℕ
read_words from zero bytes = []
read_words from (suc n) bytes =
    let rest = read_words from n (drop 8 bytes) in
    if leb 8 (length bytes) then from (take 8 bytes) ∷ rest else []

unfoldable pub generate_job_header : List ℕ → List ℕ
generate_job_header header_data = read_words from_le_bytes 4 header_data

-- `none` is the panic of an index when the header has fewer than four words.
unfoldable pub generate_large_job_params : List ℕ → ℕ → Option (List ℕ)
generate_large_job_params header_data timestamp =
    let ids = read_words from_be_bytes 4 header_data in
    if length ids == 4
    then some (format_words (ids ++ from_le_bytes (to_be_bytes 8 timestamp) ∷ []))
    else none

-- `to_string` is the text of a hash, and `encode` is `hex::encode`.
module _ (to_string encode : List ℕ → List ℕ) where
  unfoldable pub generate_iceriver_job_params : List ℕ → ℕ → List ℕ
  generate_iceriver_job_params pre_pow_hash timestamp =
      to_string pre_pow_hash ++ encode (to_le_bytes 8 timestamp)
