-- ===== src/Listener/Serve.antt =====
-- The messages of a text, and how far they are served.
use solo_dual_mode.Prelude.{
  ℕ, suc, ◌+◌, ◌≡◌, ◌⊎◌, refl, ap, sym, subst, ◌∙◌, Bool, true, false, List, [], ◌∷◌, ◌++◌, length,
  arith, Bool-cases, inl, inr,
}
use solo_dual_mode.Text.{is_empty, trim}
use solo_dual_mode.Listener.{messages, is_other_protocol, serve}
use solo_dual_mode.Listener.Lines.{split_lines, split_lines-append}

-- The lines of a text that are not empty when trimmed, trimmed.
abbrev pub messages_in : List ℕ → List (List ℕ)
messages_in text = messages (split_lines text).0

messages-++ : (xs ys : List (List ℕ)) → messages (xs ++ ys) ≡ messages xs ++ messages ys
unfolding messages
messages-++ [] ys = refl
messages-++ (line ∷ xs) ys = elim (Bool-cases (is_empty (trim line))) [
  | inl nothing ↦ rw (nothing) (messages-++ xs ys)
  | inr something ↦ rw (something) (ap (λ t. trim line ∷ t) (messages-++ xs ys))
]

-- A text that follows another one, whose last part stays in the buffer.
pub messages_in-++ :
    (a b : List ℕ)
    → (messages_in (a ++ b) ≡ messages_in a ++ messages_in ((split_lines a).1 ++ b))
      × ((split_lines (a ++ b)).1 ≡ (split_lines ((split_lines a).1 ++ b)).1)
messages_in-++ a b = (
  ap (λ p. messages p.0) (split_lines-append a b)
      ∙ messages-++ (split_lines a).0 (split_lines ((split_lines a).1 ++ b)).0,
  ap (λ p. p.1) (split_lines-append a b),
)

-- The messages that were served and whether the connection goes on.
abbrev pub Served : Type 0
Served = List (List ℕ) × Bool

abbrev lines_of : Served → List (List ℕ)
lines_of served = served.0

abbrev goes_on : Served → Bool
goes_on served = served.1

abbrev put_line : List ℕ → Served → Served
put_line line served = (line ∷ served.0, served.1)

abbrev put_lines : List (List ℕ) → Served → Served
put_lines lines served = (lines ++ served.0, served.1)

pub ending : (served : Served) (b : Bool) → served.1 ≡ b → served ≡ (served.0, b)
ending (found, on) b e = ap (λ c. (found, c)) e

-- Messages that do not end the connection, after `n` frames.
abbrev pub IsServed : (ℕ → Bool) → ℕ → List (List ℕ) → Type 0
IsServed allows n [] = Unit
IsServed allows n (line ∷ lines) =
    (is_other_protocol line ≡ false) × (allows n ≡ true) × IsServed allows (suc n) lines

-- The message after some others ends the connection.
abbrev pub IsStop : (ℕ → Bool) → ℕ → List (List ℕ) → List (List ℕ) → Type 0
IsStop allows n found lines =
    (line : List ℕ) × (more : List (List ℕ)) × (lines ≡ found ++ line ∷ more)
    × ((is_other_protocol line ≡ true) ⊎ (allows (n + length found) ≡ false))

module _ (allows : ℕ → Bool) where
  -- A line that does not end the connection is put before what follows.
  serve_line :
      (n : ℕ) (line : List ℕ) (xs : List (List ℕ))
      → is_other_protocol line ≡ false
      → allows n ≡ true
      → serve allows n (line ∷ xs) ≡ put_line line (serve allows (suc n) xs)
  unfolding serve
  serve_line n line xs fine allowed = rw (fine, allowed) refl

  -- Otherwise nothing is served.
  serve_exit :
      (n : ℕ) (line : List ℕ) (xs : List (List ℕ))
      → (serve allows n (line ∷ xs) ≡ ([], false))
        ⊎ ((is_other_protocol line ≡ false) × (allows n ≡ true))
  unfolding serve
  serve_exit n line xs = elim (Bool-cases (is_other_protocol line)) [
    | inl other ↦ inl (rw (other) refl)
    | inr fine ↦ elim (Bool-cases (allows n)) [
      | inr limited ↦ inl (rw (fine, limited) refl)
      | inl allowed ↦ inr (fine, allowed)
    ]
  ]

  -- What is served when nothing ends the connection.
  pub serve_all :
      (n : ℕ) (xs found : List (List ℕ)) → serve allows n xs ≡ (found, true) → found ≡ xs
  unfolding serve
  serve_all n [] found h = sym (ap lines_of h)
  serve_all n (line ∷ xs) found h = elim (serve_exit n line xs) [
    | inl exit ↦ absurd (ground (arith, exit, h))
    | inr (fine, allowed) ↦
        let rest : Served = serve allows (suc n) xs in
        let e = sym (serve_line n line xs fine allowed) ∙ h in
        sym (ap lines_of e)
        ∙ ap (λ l. line ∷ l) (serve_all (suc n) xs rest.0 (ending rest true (ap goes_on e)))
  ]

  pub serve-++ :
      (n : ℕ) (xs ys : List (List ℕ))
      → serve allows n xs ≡ (xs, true)
      → serve allows n (xs ++ ys) ≡ put_lines xs (serve allows (n + length xs) ys)
  unfolding serve
  serve-++ n [] ys h = let same : n ≡ n + 0 = omega arith in ap (λ k. serve allows k ys) same
  serve-++ n (line ∷ xs) ys h = elim (serve_exit n line xs) [
    | inl exit ↦ absurd (ground (arith, exit, h))
    | inr (fine, allowed) ↦
        let rest : Served = serve allows (suc n) xs in
        let e = sym (serve_line n line xs fine allowed) ∙ h in
        let on = ending rest true (ap goes_on e) in
        let all : rest ≡ (xs, true) = on ∙ ap (λ l. (l, true)) (serve_all (suc n) xs rest.0 on) in
        let shift : suc n + length xs ≡ n + length (line ∷ xs) = ground arith in
        serve_line n line (xs ++ ys) fine allowed
        ∙ ap (put_line line) (serve-++ (suc n) xs ys all)
        ∙ ap (λ k. put_lines (line ∷ xs) (serve allows k ys)) shift
  ]

  -- A message that ends the connection ends it whatever follows.
  pub serve_ended :
      (n : ℕ) (xs ys found : List (List ℕ))
      → serve allows n xs ≡ (found, false)
      → serve allows n (xs ++ ys) ≡ (found, false)
  unfolding serve
  serve_ended n [] ys found h = absurd (ground (arith, ap goes_on h))
  serve_ended n (line ∷ xs) ys found h = elim (serve_exit n line xs) [
    | inl exit ↦ elim (serve_exit n line (xs ++ ys)) [
      | inl same ↦ same ∙ sym exit ∙ h
      | inr (fine, allowed) ↦
          absurd (ground (arith, ap lines_of (sym (serve_line n line xs fine allowed) ∙ exit)))
    ]
    | inr (fine, allowed) ↦
        let rest : Served = serve allows (suc n) xs in
        let e = sym (serve_line n line xs fine allowed) ∙ h in
        serve_line n line (xs ++ ys) fine allowed
        ∙ ap (put_line line) (serve_ended (suc n) xs ys rest.0 (ending rest false (ap goes_on e)))
        ∙ ap (λ l. (l, false)) (ap lines_of e)
  ]

  serve_none :
      (n : ℕ) (line : List ℕ) (xs : List (List ℕ))
      → serve allows n (line ∷ xs) ≡ ([], false)
      → (is_other_protocol line ≡ true) ⊎ (allows n ≡ false)
  unfolding serve
  serve_none n line xs h = elim (Bool-cases (is_other_protocol line)) [
    | inl other ↦ inl other
    | inr fine ↦ elim (Bool-cases (allows n)) [
      | inr limited ↦ inr limited
      | inl allowed ↦
          absurd (ground (arith, ap lines_of (sym (serve_line n line xs fine allowed) ∙ h)))
    ]
  ]

  pub serve-IsServed : (n : ℕ) (xs : List (List ℕ)) → IsServed allows n (serve allows n xs).0
  unfolding serve
  serve-IsServed n [] = tt
  serve-IsServed n (line ∷ xs) = elim (serve_exit n line xs) [
    | inl exit ↦ subst (λ l. IsServed allows n l) (sym (ap lines_of exit)) tt
    | inr (fine, allowed) ↦
        subst (λ l. IsServed allows n l) (sym (ap lines_of (serve_line n line xs fine allowed)))
          (fine, allowed, serve-IsServed (suc n) xs)
  ]

  pub serve-IsStop :
      (n : ℕ) (xs found : List (List ℕ))
      → serve allows n xs ≡ (found, false)
      → IsStop allows n found xs
  unfolding serve
  serve-IsStop n [] found h = absurd (ground (arith, ap goes_on h))
  serve-IsStop n (line ∷ xs) found h = elim (serve_exit n line xs) [
    | inl exit ↦
        let none_found : [] ≡ found = ap lines_of (sym exit ∙ h) in
        subst (λ l. IsStop allows n l (line ∷ xs)) none_found
          (
            line,
            xs,
            refl,
            subst (λ k. (is_other_protocol line ≡ true) ⊎ (allows k ≡ false)) (omega arith)
                (serve_none n line xs exit),
          )
    | inr (fine, allowed) ↦
        let rest : Served = serve allows (suc n) xs in
        let e = sym (serve_line n line xs fine allowed) ∙ h in
        let (stop, more, split, why) =
          serve-IsStop (suc n) xs rest.0 (ending rest false (ap goes_on e)) in
        let shift : suc n + length rest.0 ≡ n + length (line ∷ rest.0) = ground arith in
        subst (λ l. IsStop allows n l (line ∷ xs)) (ap lines_of e)
          (
            stop,
            more,
            ap (λ l. line ∷ l) split,
            subst (λ k. (is_other_protocol stop ≡ true) ⊎ (allows k ≡ false)) shift why,
          )
  ]
