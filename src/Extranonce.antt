-- ===== src/Extranonce.antt =====
-- bridge-src/bridge/src/client_handler.rs, `assign_extranonce_for_miner`: the extranonces that the
-- process hands out, from one counter for all connections, which wraps after 65535.
pub mod Distinct
mod Tests
use solo_dual_mode.Prelude.{
  ℕ, zero, suc, ◌+◌, ◌/◌, ◌%◌, Bool, true, false, ◌&&◌, not, List, [], ◌∷◌, ltb, if◌then◌else◌,
}

abbrev pub max_extranonce : ℕ
max_extranonce = 65535

-- A character of `{:x}`.
unfoldable pub hex_char : ℕ → ℕ
hex_char d = if ltb d 10 then b'0' + d else 87 + d

-- `{:04x}` of a number below 65536.
unfoldable pub format_extranonce : ℕ → List ℕ
format_extranonce v =
    hex_char (v / 4096 % 16)
    ∷ hex_char (v / 256 % 16)
    ∷ hex_char (v / 16 % 16)
    ∷ hex_char (v % 16)
    ∷ []

-- The `fetch_update` of the counter, which answers the value before.
unfoldable pub next_extranonce : ℕ → ℕ × ℕ
next_extranonce val = (if ltb val max_extranonce then val + 1 else 0, val)

-- The counter after the call, and the extranonce of the connection. Only a Bitmain rig can be
-- without one, when that is switched off.
unfoldable pub assign_extranonce_for_miner : Bool → Bool → ℕ → ℕ × List ℕ
assign_extranonce_for_miner is_bitmain bitmain_extranonce_enabled val =
    let (counter, extranonce_val) = next_extranonce val in
    if is_bitmain && not bitmain_extranonce_enabled
    then (val, [])
    else (counter, format_extranonce extranonce_val)
