-- ===== src/Miner.antt =====
-- What the bridge tells from the name of a miner's program. The tests of the source are made on the
-- lowered name with ASCII words, for which lowering ASCII letters alone is the same.
use solo_dual_mode.Prelude.{ℕ, Bool, ◌||◌, List}
use solo_dual_mode.Text.{codes, contains, to_ascii_lowercase}

unfoldable pub is_bitmain : List ℕ → Bool
is_bitmain remote_app =
    let lower = to_ascii_lowercase remote_app in
    contains lower (codes "godminer")
    || contains lower (codes "bitmain")
    || contains lower (codes "antminer")

unfoldable pub is_iceriver : List ℕ → Bool
is_iceriver remote_app =
    let lower = to_ascii_lowercase remote_app in
    contains lower (codes "iceriver")
    || contains lower (codes "icemining")
    || contains lower (codes "icm")

-- The test at the end of a subscription.
unfoldable pub says_iceriver : List ℕ → Bool
says_iceriver remote_app = contains (to_ascii_lowercase remote_app) (codes "iceriver")

-- The test before a notification, which minds the case.
unfoldable pub names_iceriver : List ℕ → Bool
names_iceriver remote_app = contains remote_app (codes "IceRiver")

-- `BIG_JOB_REGEX`.
unfoldable pub is_big_job : List ℕ → Bool
is_big_job remote_app =
    contains remote_app (codes "BzMiner") || contains remote_app (codes "IceRiverMiner")
