-- ===== src/Clients.antt =====
-- bridge-src/bridge/src/client_handler.rs: the map of the connections that get jobs. A connection is
-- stored by its unique number; its other state is `Session`.
pub mod Leak
mod Tests
use solo_dual_mode.Prelude.{ℕ, ◌+◌, ◌%◌, ◌^◌, List, [], ◌∷◌, Option, none, some, map, nat_key}
use solo_dual_mode.Prelude.Dict.{Dict, get, insert, remove, values}
use solo_dual_mode.Session.{StratumContext, id, set_id, disconnect}

-- The counter has the 32 bits of an `i32`.
pub record ClientHandler : Type 0 where
  pub clients : Dict ℕ ℕ
  pub client_counter : ℕ

abbrev pub no_clients : ClientHandler
no_clients = record { clients = []; client_counter = 0 }

-- The extranonce is left empty for the subscription.
unfoldable pub on_connect : StratumContext → ClientHandler → ClientHandler × StratumContext
on_connect ctx h =
    let idx = h.client_counter in
    (
      record {
        clients = insert idx ctx.session_uid h.clients;
        client_counter = (idx + 1) % 2 ^ 32;
      },
      set_id idx (record ctx { extranonce = [] }),
    )

-- The part of `on_disconnect` that the map sees.
unfoldable pub on_disconnect : StratumContext → ClientHandler → ClientHandler × StratumContext
on_disconnect ctx h = elim (id ctx) [
  | none ↦ (h, disconnect ctx)
  | some n ↦ (record h { clients = remove n h.clients }, disconnect ctx)
]

-- The map after it, and the connections that are ended.
unfoldable pub disconnect_all : ClientHandler → ClientHandler × List ℕ
disconnect_all h = (record h { clients = [] }, values h.clients)

pub data Event : Type 0 where
  connects disconnects : StratumContext → Event

unfoldable pub step : Event → ClientHandler → ClientHandler
step (connects ctx) h = (on_connect ctx h).0
step (disconnects ctx) h = (on_disconnect ctx h).0

unfoldable pub run : List Event → ClientHandler → ClientHandler
run [] h = h
run (event ∷ events) h = run events (step event h)
