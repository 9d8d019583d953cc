-- ===== src/Listener.antt =====
-- bridge-src/bridge/src/stratum_listener.rs: what a connection's reads are cut into, and where they
-- end the connection. `lossy` is `from_utf8_lossy`, a parameter. `allows n` is the answer of the
-- anti-abuse guard to the frame after `n` others. The handler of a message may close the connection
-- as well; the reads here are those of a connection that no handler has closed.
pub mod Lines
pub mod Serve
pub mod Chunks
pub mod Frames
mod Tests
use solo_dual_mode.Prelude.{
  ℕ, zero, suc, ◌+◌, ◌*◌, Bool, true, false, ◌&&◌, not, List, [], ◌∷◌, ◌++◌, Option, none, some,
  length, ltb, leb, ◌==◌, ◌||◌, ite, if◌then◌else◌,
}
use solo_dual_mode.Text.{codes, is_empty, trim, starts_with, text_dec}
use solo_dual_mode.Domain.{byte_len}

abbrev pub max_stratum_line_bytes : ℕ
max_stratum_line_bytes = 64 * 1024

-- In seconds.
abbrev pub pre_auth_idle_timeout : ℕ
pre_auth_idle_timeout = 60

unfoldable pub should_drop_for_idle : Bool → ℕ → Bool
should_drop_for_idle is_authorized elapsed = not is_authorized && leb pre_auth_idle_timeout elapsed

-- `none` is the answer false, which ends the connection.
unfoldable pub append_line_data : List ℕ → List ℕ → Option (List ℕ)
append_line_data line_buffer chunk =
    if ltb max_stratum_line_bytes (byte_len line_buffer + byte_len chunk)
    then none
    else some (line_buffer ++ chunk)

-- The text before the first newline and the text after it.
unfoldable pub find_line : List ℕ → Option (List ℕ × List ℕ)
find_line [] = none
find_line (ch ∷ text) =
    let rest = find_line text in
    if ch == b'\n'
    then some ([], text)
    else elim rest [ none ↦ none | some (line, after) ↦ some (ch ∷ line, after) ]

-- The lines that are complete and the buffer that is left, on fuel.
unfoldable pub drain : ℕ → List ℕ → List (List ℕ) × List ℕ
drain zero line_buffer = ([], line_buffer)
drain (suc fuel) line_buffer = elim (find_line line_buffer) [
  | none ↦ ([], line_buffer)
  | some (line, after) ↦ let (lines, rest) = drain fuel after in (line ∷ lines, rest)
]

-- A line is trimmed, and passed over when nothing is left of it.
unfoldable pub messages : List (List ℕ) → List (List ℕ)
messages [] = []
messages (line ∷ lines) =
    let rest = messages lines in if is_empty (trim line) then rest else trim line ∷ rest

-- The tests on a line of HTTP or gRPC.
unfoldable pub is_other_protocol : List ℕ → Bool
is_other_protocol line =
    starts_with line (codes "PRI * HTTP/2.0")
    || starts_with line (codes "PRI * HTTP/2")
    || ite (text_dec line (codes "SM")) true false
    || starts_with line (codes "GET ")
    || starts_with line (codes "POST ")
    || starts_with line (codes "PUT ")
    || starts_with line (codes "DELETE ")
    || starts_with line (codes "HEAD ")
    || starts_with line (codes "OPTIONS ")

-- `lines().next()`, but for a carriage return, which the trimming takes off.
unfoldable pub first_line : List ℕ → List ℕ
first_line [] = []
first_line (ch ∷ text) = if ch == b'\n' then [] else ch ∷ first_line text

unfoldable pub without_nulls : List ℕ → List ℕ
without_nulls [] = []
without_nulls (b ∷ bytes) = let rest = without_nulls bytes in if b == 0 then rest else b ∷ rest

-- After some reads: too much text without a newline, a line that ends the connection, or neither,
-- each with the messages that went to their handlers, and with the buffer.
pub data Read : Type 0 where
  too_long : List (List ℕ) → Read
  ended : List (List ℕ) → Read
  kept_open : List (List ℕ) → List ℕ → Read

abbrev pub after_lines : List (List ℕ) × Bool → List ℕ → Read
after_lines (found, true) rest = kept_open found rest
after_lines (found, false) rest = ended found

abbrev pub put_before : List (List ℕ) → Read → Read
put_before found (too_long more) = too_long (found ++ more)
put_before found (ended more) = ended (found ++ more)
put_before found (kept_open more rest) = kept_open (found ++ more) rest

-- The messages up to one that ends the connection, and whether there is none, after `n` frames.
unfoldable pub serve : (ℕ → Bool) → ℕ → List (List ℕ) → List (List ℕ) × Bool
serve allows n [] = ([], true)
serve allows n (line ∷ lines) =
    let rest = serve allows (suc n) lines in
    if is_other_protocol line
    then ([], false)
    else (if allows n then (line ∷ rest.0, rest.1) else ([], false))

module _ (lossy : List ℕ → List ℕ) (allows : ℕ → Bool) where
  abbrev pub decode : List ℕ → List ℕ
  decode bytes = lossy (without_nulls bytes)

  -- A read, after `n` frames. What follows a line that ends the connection is not looked at.
  unfoldable pub read_chunk : ℕ → List ℕ → List ℕ → Read
  read_chunk n bytes line_buffer = elim (append_line_data line_buffer (decode bytes)) [
    | none ↦ too_long []
    | some joined ↦
        let (lines, rest) = drain (length joined) joined in
        after_lines (serve allows n (messages lines)) rest
  ]

  unfoldable pub read_chunks : ℕ → List (List ℕ) → List ℕ → Read
  read_chunks n [] line_buffer = kept_open [] line_buffer
  read_chunks n (bytes ∷ reads) line_buffer = elim (read_chunk n bytes line_buffer) [
    | too_long found ↦ too_long found
    | ended found ↦ ended found
    | kept_open found rest ↦ put_before found (read_chunks (n + length found) reads rest)
  ]

  -- The check of the first read, which needs no newline.
  unfoldable pub refuses_first : List (List ℕ) → Bool
  refuses_first [] = false
  refuses_first (bytes ∷ reads) = is_other_protocol (trim (first_line (decode bytes)))

  -- All the reads of a connection.
  unfoldable pub read_connection : List (List ℕ) → Read
  read_connection reads = if refuses_first reads then ended [] else read_chunks 0 reads []
