-- ===== src/Listener/Tests.antt =====
-- Connections whose second message is cut in two, and that end.
use solo_dual_mode.Prelude.{ℕ, ◌≡◌, ◌⊎◌, refl, Bool, true, false, List, [], ◌∷◌, ◌++◌, ltb}
use solo_dual_mode.Text.{codes, trim, trim_start, trim_end, starts_with, text_dec}
use solo_dual_mode.Domain.{byte_len}
use solo_dual_mode.Listener.{
  append_line_data, find_line, drain, messages, read_chunk, read_chunks, read_connection,
  refuses_first, first_line, without_nulls, is_other_protocol, serve, decode, kept_open, ended,
}
use solo_dual_mode.Listener.Chunks.{decoded}
use solo_dual_mode.Listener.Frames.{IsHandled, IsBounded, frames_joined, read_chunk-IsBounded}

-- Texts of ASCII are decoded to themselves, and four frames are let through.
abbrev lossy : List ℕ → List ℕ
lossy bytes = bytes

abbrev allows : ℕ → Bool
allows n = ltb n 4

abbrev reads : List (List ℕ)
reads = codes "a\n b" ∷ codes "c\n\n\0d" ∷ []

reads_found :
    read_connection lossy allows reads ≡ kept_open (codes "a" ∷ codes "bc" ∷ []) (codes "d")
unfolding read_connection read_chunks read_chunk append_line_data byte_len drain find_line messages
    trim trim_end trim_start serve is_other_protocol refuses_first first_line without_nulls
    starts_with text_dec solo_dual_mode.Prelude.ℕ_discrete
reads_found = refl

-- A request of HTTP ends the connection, and what follows it is not served.
http_ends :
    read_connection lossy allows ((codes "a\nGET / HTTP/1.1\nb\n") ∷ []) ≡ ended (codes "a" ∷ [])
unfolding read_connection read_chunks read_chunk append_line_data byte_len drain find_line messages
    trim trim_end trim_start serve is_other_protocol refuses_first first_line without_nulls
    starts_with text_dec solo_dual_mode.Prelude.ℕ_discrete
http_ends = refl

frames_joined_example :
    ((refuses_first lossy allows reads ≡ true) × (read_connection lossy allows reads ≡ ended []))
    ⊎ ((refuses_first lossy allows reads ≡ false)
        × IsHandled allows (read_connection lossy allows reads) (decoded lossy allows reads))
frames_joined_example = frames_joined lossy allows reads

read_chunk-IsBounded_example :
    IsBounded
      (decode lossy allows (codes "a\n b"))
      (codes "x")
      (read_chunk lossy allows 0 (codes "a\n b") (codes "x"))
read_chunk-IsBounded_example = read_chunk-IsBounded lossy allows 0 (codes "a\n b") (codes "x")
