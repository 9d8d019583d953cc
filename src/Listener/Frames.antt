-- ===== src/Listener/Frames.antt =====
-- The messages of a connection do not depend on how its text was cut into reads.
use solo_dual_mode.Prelude.{
  ℕ, ◌+◌, ◌≤◌, ◌<◌, ◌≡◌, ◌⊎◌, refl, ap, sym, subst, Bool, true, false, List, [], ◌++◌, arith, ltb,
  Bool-cases, inl, inr,
}
use solo_dual_mode.Domain.{byte_len}
use solo_dual_mode.Listener.{
  max_stratum_line_bytes, serve, Read, too_long, ended, kept_open, after_lines, decode, read_chunk,
  read_chunks, refuses_first, read_connection,
}
use solo_dual_mode.Listener.Lines.{split_lines, byte_len-rest, byte_len-append}
use solo_dual_mode.Listener.Serve.{messages_in, IsServed, IsStop, serve-IsServed, serve-IsStop}
use solo_dual_mode.Listener.Chunks.{decoded, IsFramed, read_fits, read_over, chunks-IsFramed}

-- What was done with the text of a connection: all its messages were served and the buffer holds
-- what follows the last newline; or they were served up to one that is of another protocol or comes
-- too fast; or those that were served stand at its start.
abbrev pub IsHandled : (ℕ → Bool) → Read → List ℕ → Type 0
IsHandled allows (kept_open found rest) text =
    IsServed allows 0 found × (found ≡ messages_in text) × (rest ≡ (split_lines text).1)
IsHandled allows (ended found) text =
    IsServed allows 0 found × IsStop allows 0 found (messages_in text)
IsHandled allows (too_long found) text =
    IsServed allows 0 found × ((more : List (List ℕ)) × (messages_in text ≡ found ++ more))

served :
    (allows : ℕ → Bool) (lines found : List (List ℕ)) (on : Bool)
    → serve allows 0 lines ≡ (found, on)
    → IsServed allows 0 found
served allows lines found on e =
    subst (λ l. IsServed allows 0 l) (ap (λ p. p.0) e) (serve-IsServed allows 0 lines)

IsFramed-IsHandled :
    (allows : ℕ → Bool) (r : Read) (text : List ℕ)
    → IsFramed allows 0 r text
    → IsHandled allows r text
IsFramed-IsHandled allows (kept_open found rest) text (e, all, last) =
    (served allows (messages_in text) found true e, all, last)
IsFramed-IsHandled allows (ended found) text e = (
  served allows (messages_in text) found false e,
  serve-IsStop allows 0 (messages_in text) found e,
)
IsFramed-IsHandled allows (too_long found) text (e, prefix) =
    (served allows found found true e, prefix)

-- What the answer of a read says of the sizes.
abbrev pub IsBounded : List ℕ → List ℕ → Read → Type 0
IsBounded chunk buffer (too_long found) =
    (found ≡ []) × (max_stratum_line_bytes < byte_len buffer + byte_len chunk)
IsBounded chunk buffer (ended found) = byte_len buffer + byte_len chunk ≤ max_stratum_line_bytes
IsBounded chunk buffer (kept_open found rest) =
    (byte_len buffer + byte_len chunk ≤ max_stratum_line_bytes)
    × (byte_len rest ≤ max_stratum_line_bytes)

after_lines-IsBounded :
    (chunk buffer rest : List ℕ) (served : List (List ℕ) × Bool)
    → byte_len buffer + byte_len chunk ≤ max_stratum_line_bytes
    → byte_len rest ≤ max_stratum_line_bytes
    → IsBounded chunk buffer (after_lines served rest)
after_lines-IsBounded chunk buffer rest (found, true) fits left = (fits, left)
after_lines-IsBounded chunk buffer rest (found, false) fits left = fits

module _ (lossy : List ℕ → List ℕ) (allows : ℕ → Bool) where
  -- A read is refused, and nothing in it served, exactly if its text does not fit into 65536 bytes
  -- beside the buffer, and otherwise the buffer that it leaves has at most 65536 bytes.
  pub read_chunk-IsBounded :
      (n : ℕ) (bytes buffer : List ℕ)
      → IsBounded (decode lossy allows bytes) buffer (read_chunk lossy allows n bytes buffer)
  read_chunk-IsBounded n bytes buffer =
      let chunk = decode lossy allows bytes in
      elim (Bool-cases (ltb max_stratum_line_bytes (byte_len buffer + byte_len chunk))) [
        | inl over ↦
            subst (IsBounded chunk buffer) (sym (read_over lossy allows n bytes buffer over))
              (refl, ground (arith, over))
        | inr fits ↦
            let room : byte_len buffer + byte_len chunk ≤ max_stratum_line_bytes =
              ground (arith, fits) in
            subst (IsBounded chunk buffer) (sym (read_fits lossy allows n bytes buffer fits)) (
              after_lines-IsBounded chunk buffer (split_lines (buffer ++ chunk)).1 _ room (
                omega (arith, room, byte_len-rest (buffer ++ chunk), byte_len-append buffer chunk)))
      ]

  -- A connection whose first read begins with a line of another protocol ends there. On any other,
  -- the messages are those of the whole text that its reads decode to, one by one, however it is cut
  -- into them: all of them are served, and the buffer holds what follows the last newline; or they
  -- are served up to the first one that is of another protocol or comes too fast, where the
  -- connection ends; or it ends at a read that is too long, and those served stand at the start.
  pub frames_joined :
      (reads : List (List ℕ))
      → let result = read_connection lossy allows reads in
        ((refuses_first lossy allows reads ≡ true) × (result ≡ ended []))
        ⊎ ((refuses_first lossy allows reads ≡ false)
            × IsHandled allows result (decoded lossy allows reads))
  unfolding read_connection split_lines
  frames_joined reads = elim (Bool-cases (refuses_first lossy allows reads)) [
    | inl refused ↦ inl (refused, rw (refused, read_connection) refl)
    | inr taken ↦
        let e : read_connection lossy allows reads ≡ read_chunks lossy allows 0 reads [] =
          rw (taken, read_connection) refl in
        inr (
          taken,
          IsFramed-IsHandled allows (read_connection lossy allows reads)
              (decoded lossy allows reads)
              (subst (λ r. IsFramed allows 0 r (decoded lossy allows reads)) (sym e)
                (chunks-IsFramed lossy allows 0 reads [] refl)),
        )
  ]
