-- ===== src/Hasher/Words.antt =====
-- Bytes and the words that are made of them.
use solo_dual_mode.Prelude.{
  ℕ, zero, suc, ◌+◌, ◌*◌, ◌/◌, ◌%◌, ◌<◌, ◌≡◌, refl, ap, sym, ◌∙◌, true, List, [], ◌∷◌, ◌++◌, length,
  take, drop, leb, All, arith, length-take, length-drop,
}
use mathlib.Core.List.{reverse, reverse_aux, reverse-reverse}
use solo_dual_mode.Extranonce.{hex_char}
use solo_dual_mode.Hasher.{
  from_le_bytes, to_le_bytes, from_be_bytes, to_be_bytes, hex, format_016x, format_words,
  read_words,
}

abbrev pub IsByte : ℕ → Type 0
IsByte byte = byte < 256

length-reverse_aux :
    (bytes done : List ℕ) → length (reverse_aux bytes done) ≡ length bytes + length done
length-reverse_aux [] done = omega arith
length-reverse_aux (byte ∷ bytes) done = omega (arith, length-reverse_aux bytes (byte ∷ done))

pub length-reverse : (bytes : List ℕ) → length (reverse bytes) ≡ length bytes
length-reverse bytes = omega (arith, length-reverse_aux bytes [])

All-reverse_aux :
    (bytes done : List ℕ) → All IsByte bytes → All IsByte done → All IsByte (reverse_aux bytes done)
All-reverse_aux [] done bs ds = ds
All-reverse_aux (byte ∷ bytes) done bs ds = All-reverse_aux bytes (byte ∷ done) bs.1 (bs.0, ds)

All-reverse : (bytes : List ℕ) → All IsByte bytes → All IsByte (reverse bytes)
All-reverse bytes bs = All-reverse_aux bytes [] bs tt

pub length-to_le_bytes : (n value : ℕ) → length (to_le_bytes n value) ≡ n
unfolding to_le_bytes
length-to_le_bytes zero value = refl
length-to_le_bytes (suc n) value = ap suc (length-to_le_bytes n (value / 256))

pub to_le_bytes-IsByte : (n value : ℕ) → All IsByte (to_le_bytes n value)
unfolding to_le_bytes
to_le_bytes-IsByte zero value = tt
to_le_bytes-IsByte (suc n) value = (omega arith, to_le_bytes-IsByte n (value / 256))

pub to_le_bytes-from_le_bytes :
    (bytes : List ℕ) → All IsByte bytes → to_le_bytes (length bytes) (from_le_bytes bytes) ≡ bytes
unfolding to_le_bytes from_le_bytes
to_le_bytes-from_le_bytes [] bs = refl
to_le_bytes-from_le_bytes (byte ∷ bytes) bs =
    let low : (byte + 256 * from_le_bytes bytes) % 256 ≡ byte = omega (arith, bs.0) in
    let high : (byte + 256 * from_le_bytes bytes) / 256 ≡ from_le_bytes bytes =
      omega (arith, bs.0) in
    rw (low, high) (ap (λ rest. byte ∷ rest) (to_le_bytes-from_le_bytes bytes bs.1))

pub to_be_bytes-from_be_bytes :
    (bytes : List ℕ) → All IsByte bytes → to_be_bytes (length bytes) (from_be_bytes bytes) ≡ bytes
unfolding to_be_bytes from_be_bytes
to_be_bytes-from_be_bytes bytes bs =
    ap (λ n. reverse (to_le_bytes n (from_le_bytes (reverse bytes)))) (sym (length-reverse bytes))
    ∙ ap reverse (to_le_bytes-from_le_bytes (reverse bytes) (All-reverse bytes bs))
    ∙ reverse-reverse bytes

-- The bytes of a number, turned around as a word and written out.
pub swapped :
    (value : ℕ) → to_be_bytes 8 (from_le_bytes (to_be_bytes 8 value)) ≡ to_le_bytes 8 value
unfolding to_be_bytes
swapped value =
    let bytes = to_le_bytes 8 value in
    let count : length (reverse bytes) ≡ 8 = length-reverse bytes ∙ length-to_le_bytes 8 value in
    ap (λ n. reverse (to_le_bytes n (from_le_bytes (reverse bytes)))) (sym count)
    ∙ ap reverse
        (to_le_bytes-from_le_bytes (reverse bytes) (All-reverse bytes (to_le_bytes-IsByte 8 value)))
    ∙ reverse-reverse bytes

pub hex-++ : (xs ys : List ℕ) → hex (xs ++ ys) ≡ hex xs ++ hex ys
unfolding hex
hex-++ [] ys = refl
hex-++ (byte ∷ xs) ys = ap (λ t. hex_char (byte / 16) ∷ hex_char (byte % 16) ∷ t) (hex-++ xs ys)

take-drop : (n : ℕ) (xs : List ℕ) → take n xs ++ drop n xs ≡ xs
take-drop zero xs = refl
take-drop (suc n) [] = refl
take-drop (suc n) (x ∷ xs) = ap (λ t. x ∷ t) (take-drop n xs)

All-take : (n : ℕ) (xs : List ℕ) → All IsByte xs → All IsByte (take n xs)
All-take zero xs bs = tt
All-take (suc n) [] bs = tt
All-take (suc n) (x ∷ xs) bs = (bs.0, All-take n xs bs.1)

All-drop : (n : ℕ) (xs : List ℕ) → All IsByte xs → All IsByte (drop n xs)
All-drop zero xs bs = bs
All-drop (suc n) [] bs = tt
All-drop (suc n) (x ∷ xs) bs = All-drop n xs bs.1

-- The bytes of several words.
unfoldable pub spread : (ℕ → List ℕ) → List ℕ → List ℕ
spread to [] = []
spread to (word ∷ words) = to word ++ spread to words

pub format_words-spread : (words : List ℕ) → format_words words ≡ hex (spread (to_be_bytes 8) words)
unfolding format_words spread hex
format_words-spread [] = refl
format_words-spread (word ∷ words) =
    ap (λ t. format_016x word ++ t) (format_words-spread words)
    ∙ sym (hex-++ (to_be_bytes 8 word) (spread (to_be_bytes 8) words))

module _ (from : List ℕ → ℕ) where
  pub length-read_words :
      (n : ℕ) (bytes : List ℕ) → length bytes ≡ n * 8 → length (read_words from n bytes) ≡ n
  unfolding read_words
  length-read_words zero bytes count = refl
  length-read_words (suc n) bytes count =
      let enough : leb 8 (length bytes) ≡ true = ground (arith, count) in
      rw (enough)
        (ap suc (length-read_words n (drop 8 bytes) (omega (arith, count, length-drop 8 bytes))))

  -- The words of a text are its bytes, when a word is made of its eight bytes.
  pub spread-read_words :
      (to : ℕ → List ℕ) (n : ℕ) (bytes : List ℕ)
      → ((word : List ℕ) → length word ≡ 8 → All IsByte word → to (from word) ≡ word)
      → length bytes ≡ n * 8
      → All IsByte bytes
      → spread to (read_words from n bytes) ≡ bytes
  unfolding read_words spread
  spread-read_words to zero [] back count bs = refl
  spread-read_words to zero (byte ∷ bytes) back count bs = absurd (omega (arith, count))
  spread-read_words to (suc n) bytes back count bs =
      let enough : leb 8 (length bytes) ≡ true = ground (arith, count) in
      let first =
        back (take 8 bytes) (omega (arith, count, length-take 8 bytes)) (All-take 8 bytes bs) in
      let rest =
        spread-read_words to n (drop 8 bytes) back (omega (arith, count, length-drop 8 bytes))
          (All-drop 8 bytes bs) in
      rw (enough, first, rest) (take-drop 8 bytes)
