-- ===== src/Jobs/Parent/Spaced.antt =====
-- The parents that a connection is given are apart by the interval of its rig.
use solo_dual_mode.Prelude.{
  ℕ, ◌+◌, ◌≤◌, ◌≡◌, Bool, true, List, [], ◌∷◌, Option, none, some, All, if◌then◌else◌,
}
use solo_dual_mode.Jobs.{Sender}
use solo_dual_mode.Jobs.Parent.{Parents, Refresher, Event, parent_job_interval, time_of}

abbrev pub IsLater : ℕ → Option ℕ → ℕ → Type 0
IsLater gap none now = Unit
IsLater gap (some at) now = at + gap ≤ now

-- Every two times are apart.
abbrev pub IsSpaced : ℕ → List ℕ → Type 0
IsSpaced gap [] = Unit
IsSpaced gap (at ∷ times) = All (IsLater gap (some at)) times × IsSpaced gap times

-- The clock of the events does not go back.
abbrev pub IsOrdered : ℕ → List Event → Type 0
IsOrdered now [] = Unit
IsOrdered now (event ∷ events) = (now ≤ time_of event) × IsOrdered (time_of event) events

-- A refresh that holds the permit began when the last parent was long enough ago.
abbrev pub IsDue : {A : Type 0} → ℕ → Option A → Option ℕ → ℕ → Type 0
IsDue gap none last now = Unit
IsDue gap (some p) last now = IsLater gap last now

module _ {F R T Hash : Type 0} (sender : Sender F R T) (parents : Parents R T Hash) where
  module _ (app : List ℕ) where
    abbrev pub gap : ℕ
    gap = parent_job_interval sender parents app

    -- The rig's name has not changed, and a refresh under way is due.
    abbrev pub IsReady : ℕ → Refresher F R T Hash → Type 0
    IsReady now r =
        (r.lane.ctx.remote_app ≡ app) × IsDue gap r.pending r.lane.ctx.last_parent_job_at now

    abbrev pub IsStep : ℕ → Refresher F R T Hash → Refresher F R T Hash × Bool → Type 0
    IsStep now r p =
        IsReady now p.0
        × (p.0.lane.ctx.last_parent_job_at
            ≡ (if p.1 then some now else r.lane.ctx.last_parent_job_at))
        × (p.1 ≡ true → IsLater gap r.lane.ctx.last_parent_job_at now)
