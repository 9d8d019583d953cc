-- ===== src/Listener/Chunks.antt =====
-- The reads of a connection one after the other, against the lines of their whole text.
use solo_dual_mode.Prelude.{
  ℕ, ◌+◌, ◌≡◌, refl, ap, sym, ◌∙◌, subst, Bool, true, false, List, [], ◌∷◌, ◌++◌, length, arith,
  ltb, Bool-cases, inl, inr,
}
use mathlib.Core.List.{append_assoc, append-nil}
use solo_dual_mode.Domain.{byte_len}
use solo_dual_mode.Listener.{
  max_stratum_line_bytes, append_line_data, messages, serve, Read, too_long, ended, kept_open,
  after_lines, put_before, decode, read_chunk, read_chunks,
}
use solo_dual_mode.Listener.Lines.{split_lines, rest_whole, drain_lem}
use solo_dual_mode.Listener.Serve.{
  messages_in, messages_in-++, Served, ending, serve_all, serve-++, serve_ended,
}

-- What the reads have done with their text, after `n` frames: all its messages were served and the
-- buffer holds what follows the last newline; or the messages were served up to the one that ends
-- the connection; or those that were served stand at its start.
abbrev pub IsFramed : (ℕ → Bool) → ℕ → Read → List ℕ → Type 0
IsFramed allows n (kept_open found rest) text =
    (serve allows n (messages_in text) ≡ (found, true))
    × (found ≡ messages_in text)
    × (rest ≡ (split_lines text).1)
IsFramed allows n (ended found) text = serve allows n (messages_in text) ≡ (found, false)
IsFramed allows n (too_long found) text =
    (serve allows n found ≡ (found, true))
    × ((more : List (List ℕ)) × (messages_in text ≡ found ++ more))

after_lines-IsFramed :
    (allows : ℕ → Bool) (n : ℕ) (served : List (List ℕ) × Bool) (text : List ℕ)
    → serve allows n (messages_in text) ≡ served
    → IsFramed allows n (after_lines served (split_lines text).1) text
after_lines-IsFramed allows n (found, true) text e =
    (e, serve_all allows n (messages_in text) found e, refl)
after_lines-IsFramed allows n (found, false) text e = e

-- What is read later comes after what was served before.
put_before-IsFramed :
    (allows : ℕ → Bool) (n : ℕ) (found : List (List ℕ)) (r : Read) (later text : List ℕ)
    → serve allows n found ≡ (found, true)
    → messages_in text ≡ found ++ messages_in later
    → (split_lines text).1 ≡ (split_lines later).1
    → IsFramed allows (n + length found) r later
    → IsFramed allows n (put_before found r) text
put_before-IsFramed allows n found (kept_open more rest) later text on parts left (e, all, last) = (
  ap (serve allows n) parts
      ∙ serve-++ allows n found (messages_in later) on
      ∙ ap (λ p. (found ++ p.0, p.1)) e,
  ap (λ l. found ++ l) all ∙ sym parts,
  last ∙ sym left,
)
put_before-IsFramed allows n found (ended more) later text on parts left e =
    ap (serve allows n) parts
    ∙ serve-++ allows n found (messages_in later) on
    ∙ ap (λ p. (found ++ p.0, p.1)) e
put_before-IsFramed allows n found (too_long more) later text on parts left (e, (tail, split)) = (
  serve-++ allows n found more on ∙ ap (λ p. (found ++ p.0, p.1)) e,
  (tail, parts ∙ ap (λ l. found ++ l) split ∙ sym (append_assoc found more tail)),
)

module _ (lossy : List ℕ → List ℕ) (allows : ℕ → Bool) where
  -- The text that the reads decode to, one by one.
  abbrev pub decoded : List (List ℕ) → List ℕ
  decoded [] = []
  decoded (bytes ∷ reads) = decode lossy allows bytes ++ decoded reads

  pub read_fits :
      (n : ℕ) (bytes buffer : List ℕ)
      → ltb max_stratum_line_bytes (byte_len buffer + byte_len (decode lossy allows bytes)) ≡ false
      → let text = buffer ++ decode lossy allows bytes in
        read_chunk lossy allows n bytes buffer
        ≡ after_lines (serve allows n (messages_in text)) (split_lines text).1
  unfolding read_chunk append_line_data
  read_fits n bytes buffer fits =
      let text = buffer ++ decode lossy allows bytes in
      rw (fits, read_chunk)
        (ap (λ p. after_lines (serve allows n (messages p.0)) p.1)
          (drain_lem (length text) text (omega arith)))

  pub read_over :
      (n : ℕ) (bytes buffer : List ℕ)
      → ltb max_stratum_line_bytes (byte_len buffer + byte_len (decode lossy allows bytes)) ≡ true
      → read_chunk lossy allows n bytes buffer ≡ too_long []
  unfolding read_chunk append_line_data
  read_over n bytes buffer over = rw (over, read_chunk) refl

  chunks_stop :
      (n : ℕ) (bytes buffer : List ℕ) (reads found : List (List ℕ))
      → read_chunk lossy allows n bytes buffer ≡ ended found
      → read_chunks lossy allows n (bytes ∷ reads) buffer ≡ ended found
  unfolding read_chunks
  chunks_stop n bytes buffer reads found e = rw (e, read_chunks) refl

  chunks_over :
      (n : ℕ) (bytes buffer : List ℕ) (reads : List (List ℕ))
      → read_chunk lossy allows n bytes buffer ≡ too_long []
      → read_chunks lossy allows n (bytes ∷ reads) buffer ≡ too_long []
  unfolding read_chunks
  chunks_over n bytes buffer reads e = rw (e, read_chunks) refl

  chunks_on :
      (n : ℕ) (bytes buffer rest : List ℕ) (reads found : List (List ℕ))
      → read_chunk lossy allows n bytes buffer ≡ kept_open found rest
      → read_chunks lossy allows n (bytes ∷ reads) buffer
        ≡ put_before found (read_chunks lossy allows (n + length found) reads rest)
  unfolding read_chunks
  chunks_on n bytes buffer rest reads found e = rw (e, read_chunks) refl

  -- From a buffer without a newline on.
  pub chunks-IsFramed :
      (n : ℕ) (reads : List (List ℕ)) (buffer : List ℕ)
      → split_lines buffer ≡ ([], buffer)
      → IsFramed allows n (read_chunks lossy allows n reads buffer) (buffer ++ decoded reads)
  unfolding read_chunks messages serve
  chunks-IsFramed n [] buffer whole =
      let end = ap split_lines (append-nil buffer) ∙ whole in
      (
        ap (λ p. serve allows n (messages p.0)) end,
        sym (ap (λ p. messages p.0) end),
        sym (ap (λ p. p.1) end),
      )
  chunks-IsFramed n (bytes ∷ reads) buffer whole =
      let chunk = decode lossy allows bytes in
      let text = buffer ++ chunk in
      let later = (split_lines text).1 ++ decoded reads in
      let served : Served = serve allows n (messages_in text) in
      let (parts, left) = messages_in-++ text (decoded reads) in
      let frame : (r : Read)
          → read_chunks lossy allows n (bytes ∷ reads) buffer ≡ r
          → IsFramed allows n r (text ++ decoded reads)
          → IsFramed allows n (read_chunks lossy allows n (bytes ∷ reads) buffer)
              (buffer ++ (chunk ++ decoded reads)) =
        λ r e framed.
          subst (IsFramed allows n _) (append_assoc buffer chunk (decoded reads))
            (subst (λ o. IsFramed allows n o (text ++ decoded reads)) (sym e) framed) in
      elim (Bool-cases (ltb max_stratum_line_bytes (byte_len buffer + byte_len chunk))) [
        | inl over ↦
            frame (too_long []) (chunks_over n bytes buffer reads (read_over n bytes buffer over))
              (refl, (messages_in (text ++ decoded reads), refl))
        | inr fits ↦ elim (Bool-cases served.1) [
          | inr off ↦
              let e = ending served false off in
              let read =
                read_fits n bytes buffer fits ∙ ap (λ s. after_lines s (split_lines text).1) e in
              frame (ended served.0) (chunks_stop n bytes buffer reads served.0 read) (
                ap (serve allows n) parts
                ∙ serve_ended allows n (messages_in text) (messages_in later) served.0 e)
          | inl on ↦
              let e = ending served true on in
              let read =
                read_fits n bytes buffer fits ∙ ap (λ s. after_lines s (split_lines text).1) e in
              let all = serve_all allows n (messages_in text) served.0 e in
              let more =
                read_chunks lossy allows (n + length served.0) reads (split_lines text).1 in
              frame (put_before served.0 more)
                (chunks_on n bytes buffer (split_lines text).1 reads served.0 read)
                (put_before-IsFramed allows n served.0 more later (text ++ decoded reads)
                  (ap (serve allows n) all ∙ e) (parts ∙ ap (λ l. l ++ messages_in later) (sym all))
                  left
                  (chunks-IsFramed (n + length served.0) reads (split_lines text).1
                    (rest_whole text)))
        ]
      ]
