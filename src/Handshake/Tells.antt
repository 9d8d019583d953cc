-- ===== src/Handshake/Tells.antt =====
-- The messages that tell a rig an extranonce, counted.
use solo_dual_mode.Prelude.{
  ℕ, ◌+◌, ◌-◌, ◌/◌, ◌≡◌, refl, Bool, true, false, ◌&&◌, List, [], ◌∷◌, ◌++◌, Option, none, some,
  arith, length, ite, if◌then◌else◌, ◌==◌,
}
use solo_dual_mode.Text.{codes, text_dec}
use solo_dual_mode.Rpc.{
  null, string, number, Json, scalar, array, Message, response, event, notification,
  v1_notification,
}
use solo_dual_mode.Handshake.{Client}
use solo_dual_mode.Handshake.Messages.{only_if}

-- The names under which an extranonce is announced.
abbrev pub is_announcement : List ℕ → Bool
is_announcement method = elim (text_dec method (codes "mining.set_extranonce")) [
  | yes same ↦ true
  | no other ↦ elim (text_dec method (codes "set_extranonce")) [
    | yes same ↦ true
    | no different ↦ false
  ]
]

-- The bytes that are left to the rig of the eight of a nonce.
abbrev pub size_left : List ℕ → ℕ
size_left extranonce = 8 - length extranonce / 2

abbrev pub is_text : List ℕ → List ℕ → Bool
is_text text extranonce = ite (text_dec text extranonce) true false

-- After an extranonce: nothing, or the size that it leaves.
abbrev pub is_size : {F : Type 0} → List ℕ → List (Json F) → Bool
is_size extranonce [] = true
is_size extranonce (scalar (number size) ∷ []) = size == size_left extranonce
is_size extranonce params = false

abbrev pub carries : {F : Type 0} → List ℕ → List (Json F) → Bool
carries extranonce (scalar (string text) ∷ params) =
    is_text text extranonce && is_size extranonce params
carries extranonce params = false

-- Whether a message tells a rig this very extranonce, with the right size if it has one.
abbrev pub tells : {F : Type 0} → List ℕ → Message F → Bool
tells extranonce (response id (some (array (null ∷ string text ∷ number size ∷ []))) error) =
    is_text text extranonce && (size == size_left extranonce)
tells extranonce (response id result error) = false
tells extranonce (event id method params) = is_announcement method && carries extranonce params
tells extranonce (notification method params) = is_announcement method && carries extranonce params
tells extranonce (v1_notification method params) =
    is_announcement method && carries extranonce params

unfoldable pub tellings : {F : Type 0} → List ℕ → List (Message F) → ℕ
tellings extranonce [] = 0
tellings extranonce (m ∷ ms) = (if tells extranonce m then 1 else 0) + tellings extranonce ms

pub tellings-++ :
    {F : Type 0} (e : List ℕ) (ms ms' : List (Message F))
    → tellings e (ms ++ ms') ≡ tellings e ms + tellings e ms'
unfolding tellings
tellings-++ e [] ms' = omega arith
tellings-++ e (m ∷ ms) ms' = ground (arith, tellings-++ e ms ms')

-- How often the rig was told the extranonce of its connection, when no handler failed.
abbrev pub told : {F : Type 0} → Option (Client F) → Option ℕ
told none = none
told (some c) = some (tellings c.ctx.extranonce c.wire)

abbrev pub bit : Bool → ℕ
bit b = if b then 1 else 0

pub tellings-only_if :
    {F : Type 0} (e : List ℕ) (b : Bool) (m : Message F)
    → tells e m ≡ true
    → tellings e (only_if b (m ∷ [])) ≡ bit b
unfolding tellings
tellings-only_if e true m tell = ground (arith, tell)
tellings-only_if e false m tell = refl

ite-true : {P : Type 0} (d : Dec P) → P → ite d true false ≡ true
ite-true (yes p) q = refl
ite-true (no np) q = absurd (np q)

pub is_text_same : (e : List ℕ) → is_text e e ≡ true
is_text_same e = ite-true (text_dec e e) refl

pub announced :
    (is_announcement (codes "mining.set_extranonce") ≡ true)
    × (is_announcement (codes "set_extranonce") ≡ true)
    × (is_announcement (codes "mining.set_difficulty") ≡ false)
unfolding text_dec solo_dual_mode.Prelude.ℕ_discrete
announced = (refl, refl, refl)
