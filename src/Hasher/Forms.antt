-- ===== src/Hasher/Forms.antt =====
-- The forms of a job carry the same hash and the same timestamp.
use solo_dual_mode.Prelude.{
  ℕ, zero, suc, ◌+◌, ◌*◌, ◌/◌, ◌%◌, ◌^◌, ◌<◌, ◌≡◌, refl, ap, sym, ◌∙◌, List, [], ◌∷◌, ◌++◌, some,
  length, take, drop, All, All-append, arith,
}
use mathlib.Core.List.{append_assoc, append-nil}
use solo_dual_mode.Submit.Text.Hex.{digit}
use solo_dual_mode.Extranonce.Distinct.{digit-hex_char}
use solo_dual_mode.Hasher.{
  from_le_bytes, to_le_bytes, from_be_bytes, to_be_bytes, hex, read_words, generate_job_header,
  generate_large_job_params, generate_iceriver_job_params,
}
use solo_dual_mode.Hasher.Words.{
  IsByte, spread, length-read_words, spread-read_words, format_words-spread,
  to_le_bytes-from_le_bytes, to_be_bytes-from_be_bytes, swapped, to_le_bytes-IsByte, hex-++,
}

spread-++ : (to : ℕ → List ℕ) (xs ys : List ℕ) → spread to (xs ++ ys) ≡ spread to xs ++ spread to ys
unfolding spread
spread-++ to [] ys = refl
spread-++ to (x ∷ xs) ys =
    ap (λ t. to x ++ t) (spread-++ to xs ys)
    ∙ sym (append_assoc (to x) (spread to xs) (spread to ys))

-- A text of hexadecimal digits read two at a time.
unfoldable pub unhex : List ℕ → List ℕ
unhex [] = []
unhex (high ∷ []) = []
unhex (high ∷ low ∷ text) = (digit high * 16 + digit low) ∷ unhex text

-- How a rig reads a job that is one text: 32 bytes of the hash, then the timestamp.
abbrev pub read_job : List ℕ → List ℕ × ℕ
read_job text = (take 32 (unhex text), from_le_bytes (drop 32 (unhex text)))

unhex-hex : (bs : List ℕ) → All IsByte bs → unhex (hex bs) ≡ bs
unfolding unhex hex
unhex-hex [] bytes = refl
unhex-hex (byte ∷ bs) bytes =
    let high = digit-hex_char (byte / 16) (omega (arith, bytes.0)) in
    let low = digit-hex_char (byte % 16) (omega (arith, bytes.0)) in
    let whole : byte / 16 * 16 + byte % 16 ≡ byte = omega (arith) in
    rw (high, low, whole, unhex-hex bs bytes.1) refl

from_le_bytes-to_le_bytes :
    (n value : ℕ) → value < 256 ^ n → from_le_bytes (to_le_bytes n value) ≡ value
unfolding from_le_bytes to_le_bytes
from_le_bytes-to_le_bytes zero value small = omega (arith, small)
from_le_bytes-to_le_bytes (suc n) value small =
    let rest = from_le_bytes-to_le_bytes n (value / 256) (omega (arith, small)) in
    rw (rest) (omega arith)

taken :
    (n : ℕ) (xs ys : List ℕ) → length xs ≡ n → (take n (xs ++ ys) ≡ xs) × (drop n (xs ++ ys) ≡ ys)
taken zero [] ys e = (refl, refl)
taken zero (x ∷ xs) ys e = absurd (omega (arith, e))
taken (suc n) [] ys e = absurd (omega (arith, e))
taken (suc n) (x ∷ xs) ys e =
    let (front, back) = taken n xs ys (omega (arith, e)) in (ap (λ t. x ∷ t) front, back)

big_words :
    (word : List ℕ) → length word ≡ 8 → All IsByte word → to_be_bytes 8 (from_be_bytes word) ≡ word
big_words word eight bs =
    ap (λ n. to_be_bytes n (from_be_bytes word)) (sym eight) ∙ to_be_bytes-from_be_bytes word bs

little_words :
    (word : List ℕ) → length word ≡ 8 → All IsByte word → to_le_bytes 8 (from_le_bytes word) ≡ word
little_words word eight bs =
    ap (λ n. to_le_bytes n (from_le_bytes word)) (sym eight) ∙ to_le_bytes-from_le_bytes word bs

module _ (hash : List ℕ) (bytes : All IsByte hash) (size : length hash ≡ 32) where
  words_spread :
      (timestamp : ℕ)
      → spread
          (to_be_bytes 8)
          (read_words from_be_bytes 4 hash ++ from_le_bytes (to_be_bytes 8 timestamp) ∷ [])
        ≡ hash ++ to_le_bytes 8 timestamp
  unfolding spread
  words_spread timestamp =
      spread-++ (to_be_bytes 8) (read_words from_be_bytes 4 hash) _
      ∙ ap (λ t. t ++ spread (to_be_bytes 8) (from_le_bytes (to_be_bytes 8 timestamp) ∷ []))
          (spread-read_words from_be_bytes (to_be_bytes 8) 4 hash big_words size bytes)
      ∙ ap (λ t. hash ++ t)
          (append-nil (to_be_bytes 8 (from_le_bytes (to_be_bytes 8 timestamp))) ∙ swapped timestamp)

  module _ (to_string encode : List ℕ → List ℕ) (writes : to_string hash ≡ hex hash)
      (encodes : (bs : List ℕ) → encode bs ≡ hex bs) where
    iceriver_hex :
        (timestamp : ℕ)
        → generate_iceriver_job_params to_string encode hash timestamp
          ≡ hex (hash ++ to_le_bytes 8 timestamp)
    unfolding generate_iceriver_job_params
    iceriver_hex timestamp =
        rw (writes, encodes (to_le_bytes 8 timestamp)) (sym (hex-++ hash (to_le_bytes 8 timestamp)))

    -- When the texts of hashes and of bytes are their hexadecimal digits, the large form of a job
    -- with a hash of 32 bytes is given without a panic, and is the very text of the IceRiver form.
    pub forms_agree :
        (timestamp : ℕ)
        → generate_large_job_params hash timestamp
          ≡ some (generate_iceriver_job_params to_string encode hash timestamp)
    unfolding generate_large_job_params
    forms_agree timestamp =
        rw (length-read_words from_be_bytes 4 hash size, iceriver_hex timestamp)
          (ap some (format_words-spread _ ∙ ap hex (words_spread timestamp)))

    -- When the texts of hashes and of bytes are their hexadecimal digits, the text of a job with a
    -- hash of 32 bytes and a timestamp below 2 ^ 64 is read back as both, and the four words of the
    -- legacy form hold the bytes of the hash.
    pub job_read :
        (timestamp : ℕ)
        → timestamp < 2 ^ 64
        → (read_job (generate_iceriver_job_params to_string encode hash timestamp)
            ≡ (hash, timestamp))
          × (spread (to_le_bytes 8) (generate_job_header hash) ≡ hash)
    unfolding generate_job_header
    job_read timestamp small = (
      rw
          (
            iceriver_hex timestamp,
            unhex-hex (hash ++ to_le_bytes 8 timestamp) (
                All-append IsByte hash (to_le_bytes 8 timestamp) bytes
                  (to_le_bytes-IsByte 8 timestamp)),
            (taken 32 hash (to_le_bytes 8 timestamp) size).0,
            (taken 32 hash (to_le_bytes 8 timestamp) size).1,
          )
          (ap (λ t. (hash, t)) (from_le_bytes-to_le_bytes 8 timestamp small)),
      spread-read_words from_le_bytes (to_le_bytes 8) 4 hash little_words size bytes,
    )
