-- ===== src/Listener/Lines.antt =====
-- A text taken apart at its newlines, and the loop that does it.
use solo_dual_mode.Prelude.{
  ℕ, zero, suc, ◌+◌, ◌≤◌, ◌<◌, ◌≡◌, refl, ap, sym, ◌∙◌, subst, false, List, [], ◌∷◌, ◌++◌, Option,
  none, some, length, arith, ◌==◌, if◌then◌else◌, Bool-cases, Option-cases, inl, inr,
}
use solo_dual_mode.Domain.{byte_len}
use solo_dual_mode.Listener.{find_line, drain}

-- A text taken apart at its newlines: the lines and what follows the last newline.
abbrev pub extend : ℕ → List (List ℕ) × List ℕ → List (List ℕ) × List ℕ
extend ch ([], rest) = ([], ch ∷ rest)
extend ch (line ∷ lines, rest) = ((ch ∷ line) ∷ lines, rest)

unfoldable pub split_lines : List ℕ → List (List ℕ) × List ℕ
split_lines [] = ([], [])
split_lines (ch ∷ text) =
    let rest = split_lines text in if ch == b'\n' then ([] ∷ rest.0, rest.1) else extend ch rest

-- What a search for a line says of the text taken apart.
abbrev pub joined : Option (List ℕ × List ℕ) → List ℕ → List (List ℕ) × List ℕ
joined none text = ([], text)
joined (some (line, after)) text = (line ∷ (split_lines after).0, (split_lines after).1)

extend-joined :
    (ch : ℕ) (found : Option (List ℕ × List ℕ)) (text : List ℕ)
    → extend ch (joined found text)
      ≡ joined
          (elim found [ none ↦ none | some (line, after) ↦ some (ch ∷ line, after) ])
          (ch ∷ text)
extend-joined ch none text = refl
extend-joined ch (some (line, after)) text = refl

split_lines-joined : (text : List ℕ) → split_lines text ≡ joined (find_line text) text
unfolding split_lines find_line
split_lines-joined [] = refl
split_lines-joined (ch ∷ text) = elim (Bool-cases (ch == b'\n')) [
  | inl newline ↦ rw (newline) refl
  | inr other ↦
      rw (other) (ap (extend ch) (split_lines-joined text) ∙ extend-joined ch (find_line text) text)
]

-- The text after a line is shorter.
IsShorter : Option (List ℕ × List ℕ) → ℕ → Type 0
IsShorter none n = Unit
IsShorter (some (line, after)) n = length after < n

IsShorter-extend :
    (ch : ℕ) (found : Option (List ℕ × List ℕ)) (n : ℕ)
    → IsShorter found n
    → IsShorter (elim found [ none ↦ none | some (line, after) ↦ some (ch ∷ line, after) ]) (suc n)
unfolding IsShorter
IsShorter-extend ch none n short = tt
IsShorter-extend ch (some (line, after)) n short = omega (arith, short)

find_line-IsShorter : (text : List ℕ) → IsShorter (find_line text) (length text)
unfolding IsShorter find_line
find_line-IsShorter [] = tt
find_line-IsShorter (ch ∷ text) = elim (Bool-cases (ch == b'\n')) [
  | inl newline ↦ rw (newline) (omega arith)
  | inr other ↦
      rw (other) (IsShorter-extend ch (find_line text) (length text) (find_line-IsShorter text))
]

-- The loop with enough fuel takes the text apart at its newlines.
pub drain_lem : (fuel : ℕ) (text : List ℕ) → length text ≤ fuel → drain fuel text ≡ split_lines text
unfolding drain split_lines IsShorter
drain_lem zero [] enough = refl
drain_lem zero (ch ∷ text) enough = absurd (omega (arith, enough))
drain_lem (suc fuel) text enough = elim (Option-cases (find_line text)) [
  | inl none_found ↦
      rw (none_found, drain) (sym (split_lines-joined text ∙ ap (λ o. joined o text) none_found))
  | inr ((line, after), found) ↦
      let short = subst (λ o. IsShorter o (length text)) found (find_line-IsShorter text) in
      rw (found, drain)
        (ap (λ p. (line ∷ p.0, p.1)) (drain_lem fuel after (omega (arith, short, enough)))
          ∙ sym (split_lines-joined text ∙ ap (λ o. joined o text) found))
]

extend-append :
    (ch : ℕ) (s : List (List ℕ) × List ℕ) (b : List ℕ)
    → (ch == b'\n') ≡ false
    → extend ch (s.0 ++ (split_lines (s.1 ++ b)).0, (split_lines (s.1 ++ b)).1) ≡ (
      (extend ch s).0 ++ (split_lines ((extend ch s).1 ++ b)).0,
      (split_lines ((extend ch s).1 ++ b)).1,
    )
unfolding split_lines
extend-append ch ([], rest) b other = rw (other) refl
extend-append ch (line ∷ lines, rest) b other = refl

-- What is left after the lines of a text joins the text that comes next.
pub split_lines-append :
    (a b : List ℕ)
    → split_lines (a ++ b) ≡ (
      (split_lines a).0 ++ (split_lines ((split_lines a).1 ++ b)).0,
      (split_lines ((split_lines a).1 ++ b)).1,
    )
unfolding split_lines
split_lines-append [] b = refl
split_lines-append (ch ∷ text) b = elim (Bool-cases (ch == b'\n')) [
  | inl newline ↦ rw (newline) (ap (λ p. ([] ∷ p.0, p.1)) (split_lines-append text b))
  | inr other ↦
      rw (other)
        (ap (extend ch) (split_lines-append text b) ∙ extend-append ch (split_lines text) b other)
]

-- The rest has no newline.
extend-rest :
    (ch : ℕ) (s : List (List ℕ) × List ℕ)
    → (ch == b'\n') ≡ false
    → split_lines s.1 ≡ ([], s.1)
    → split_lines (extend ch s).1 ≡ ([], (extend ch s).1)
unfolding split_lines
extend-rest ch ([], rest) other whole = rw (other, whole) refl
extend-rest ch (line ∷ lines, rest) other whole = whole

pub rest_whole : (text : List ℕ) → split_lines (split_lines text).1 ≡ ([], (split_lines text).1)
unfolding split_lines
rest_whole [] = refl
rest_whole (ch ∷ text) = elim (Bool-cases (ch == b'\n')) [
  | inl newline ↦ rw (newline) (rest_whole text)
  | inr other ↦ rw (other) (extend-rest ch (split_lines text) other (rest_whole text))
]

byte_len-extend :
    (ch : ℕ) (s : List (List ℕ) × List ℕ) → byte_len (extend ch s).1 ≤ byte_len (ch ∷ s.1)
unfolding byte_len
byte_len-extend ch ([], rest) = omega arith
byte_len-extend ch (line ∷ lines, rest) = omega arith

pub byte_len-rest : (text : List ℕ) → byte_len (split_lines text).1 ≤ byte_len text
unfolding split_lines byte_len
byte_len-rest [] = omega arith
byte_len-rest (ch ∷ text) = elim (Bool-cases (ch == b'\n')) [
  | inl newline ↦ rw (newline) (omega (arith, byte_len-rest text))
  | inr other ↦
      rw (other) (omega (arith, byte_len-extend ch (split_lines text), byte_len-rest text))
]

pub byte_len-append : (a b : List ℕ) → byte_len (a ++ b) ≡ byte_len a + byte_len b
unfolding byte_len
byte_len-append [] b = omega arith
byte_len-append (ch ∷ a) b = omega (arith, byte_len-append a b)
