-- ===== src/Clients/Tests.antt =====
-- The first connection ends, and so does the second.
use solo_dual_mode.Prelude.{◌≡◌, List, [], ◌∷◌, some, arith, nat_key}
use solo_dual_mode.Prelude.Dict.{get}
use solo_dual_mode.Session.{new, set_id}
use solo_dual_mode.Clients.{no_clients, Event, connects, disconnects, run}
use solo_dual_mode.Clients.Leak.{first_stays}

abbrev later : List Event
later =
    connects (new 5556 2)
    ∷ disconnects (set_id 0 (new 5555 1))
    ∷ disconnects (set_id 1 (new 5556 2))
    ∷ []

first_stays_example :
    get 0 (run (connects (new 5555 1) ∷ later) no_clients).clients ≡ some (new 5555 1).session_uid
first_stays_example = first_stays (new 5555 1) later (omega arith)
