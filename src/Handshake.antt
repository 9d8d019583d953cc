-- ===== src/Handshake.antt =====
-- bridge-src/bridge/src/default_client.rs: `handle_subscribe` and `handle_authorize`, as the bridge
-- installs them, with a client handler. The state is the connection, the counter of extranonces,
-- the statistics and the messages sent so far. `none` is a handler's error, after which the state
-- is not looked at any more.
pub mod Rig
pub mod Messages
pub mod Tells
pub mod Told
mod Tests
use solo_dual_mode.Prelude.{
  ℕ, ◌+◌, ◌-◌, ◌/◌, Bool, true, false, ◌&&◌, not, List, [], ◌∷◌, ◌++◌, Option, none, some, length,
  get_elem?, take, drop, ◌==◌, if◌then◌else◌,
}
use solo_dual_mode.Text.{codes, is_empty, starts_with, to_ascii_lowercase}
use solo_dual_mode.Rpc.{
  Scalar, null, boolean, string, number, float, Json, scalar, array, Message, response, event,
  notification, v1_notification, Wire, send,
}
use solo_dual_mode.Miner.{is_bitmain, is_iceriver, says_iceriver, names_iceriver}
use solo_dual_mode.Wallet.{clean_wallet, parse_kas_payout}
use solo_dual_mode.Extranonce.{assign_extranonce_for_miner}
use solo_dual_mode.Session.{
  StratumContext, connected, mark_authorized, claim_session_open, ensure_default_worker_name,
}
use solo_dual_mode.Vardiff.{Double, Stats}
use solo_dual_mode.Vardiff.Sessions.{change_identity}

-- What the handlers are given: whether the Kaspa Common protocol is spoken, the switch for Bitmain
-- rigs, the address decoder, the pool's address, the difficulty of the port as JSON, and the socket.
pub record Setup (F : Type 0) : Type 0 where
  pub ops : Double F
  pub kaspa_common_protocol : Bool
  pub bitmain_extranonce_enabled : Bool
  pub is_address : List ℕ → Bool
  pub pool_fallback_address : List ℕ
  pub seed_json : Scalar F
  pub accepts : ℕ → Bool

pub record Client (F : Type 0) : Type 0 where
  pub ctx : StratumContext
  pub kas_payout : Option (List ℕ)
  pub canxium_addr : List ℕ
  pub counter : ℕ
  pub stats : Stats F
  pub wire : Wire F
  pub opened : ℕ

-- `split('.')`.
abbrev pub prepend : ℕ → List (List ℕ) → List (List ℕ)
prepend ch [] = (ch ∷ []) ∷ []
prepend ch (part ∷ parts) = (ch ∷ part) ∷ parts

unfoldable pub split_dot : List ℕ → List (List ℕ)
split_dot [] = [] ∷ []
split_dot (ch ∷ text) =
    let parts = split_dot text in if ch == b'.' then [] ∷ parts else prepend ch parts

-- A part that is missing counts as empty.
abbrev pub part : ℕ → List (List ℕ) → List ℕ
part i parts = elim (get_elem? parts i) [ none ↦ [] | some text ↦ text ]

abbrev pub canxium_head : List ℕ
canxium_head = codes "canxiuminer:"

-- `process_canxium_address`: without `0x`, and with the head.
unfoldable pub process_canxium_address : List ℕ → List ℕ
process_canxium_address address =
    let addr =
      if starts_with address (codes "0x")
      then drop 2 address
      else (if starts_with (to_ascii_lowercase address) (codes "canxiuminer:0x")
          then take (length canxium_head) address ++ drop (length (codes "canxiuminer:0x")) address
          else address) in
    if starts_with (to_ascii_lowercase addr) canxium_head then addr else canxium_head ++ addr

-- The third part of a login, if there is one.
abbrev pub canxium_of : Option (List ℕ) → List ℕ → List ℕ
canxium_of none old = old
canxium_of (some text) old = process_canxium_address text

abbrev pub as_str : {F : Type 0} → Option (Json F) → Option (List ℕ)
as_str (some (scalar (string s))) = some s
as_str value = none

-- A step that is made under a condition, and `?` between two steps.
abbrev pub when :
    {F : Type 0} → Bool → (Client F → Option (Client F)) → Client F → Option (Client F)
when true act c = act c
when false act c = some c

infixl 5 ◌then_do◌
abbrev pub ◌then_do◌ :
    {F : Type 0} → Option (Client F) → (Client F → Option (Client F)) → Option (Client F)
none then_do act = none
some c then_do act = act c

module _ {F : Type 0} (setup : Setup F) where
  open setup use {ops, kaspa_common_protocol, bitmain_extranonce_enabled, is_address, accepts}

  -- `reply`, `send`, `send_notification` and `send_v1_notification`: an error once the connection is
  -- being closed, or when the socket does not take the message. The check of `write_data` covers
  -- the last one, which has none of its own.
  unfoldable pub deliver : Message F → Client F → Option (Client F)
  deliver m c =
      let sent = send accepts m c.wire in
      if connected c.ctx
      then elim sent [ none ↦ none | some wire ↦ some (record c { wire = wire }) ]
      else none

  -- `8 - extranonce.len() / 2`, for an extranonce of at most 16 characters.
  abbrev pub extranonce2_size : List ℕ → ℕ
  extranonce2_size extranonce = 8 - length extranonce / 2

  unfoldable pub extranonce_params : StratumContext → List (Json F)
  extranonce_params ctx =
      if is_bitmain ctx.remote_app
      then scalar (string ctx.extranonce) ∷ scalar (number (extranonce2_size ctx.extranonce)) ∷ []
      else scalar (string ctx.extranonce) ∷ []

  unfoldable pub extranonce_message : StratumContext → Message F
  extranonce_message ctx =
      if names_iceriver ctx.remote_app
      then notification (codes "mining.set_extranonce") (extranonce_params ctx)
      else event none (codes "mining.set_extranonce") (extranonce_params ctx)

  unfoldable pub send_extranonce : Client F → Option (Client F)
  send_extranonce c = deliver (extranonce_message c.ctx) c

  unfoldable pub subscribe_response : Option (Scalar F) → StratumContext → Message F
  subscribe_response id ctx =
      if is_bitmain ctx.remote_app
      then response id
          (some
            (array (null ∷ string ctx.extranonce ∷ number (extranonce2_size ctx.extranonce) ∷ [])))
          none
      else response id (some (array (boolean true ∷ string (codes "EthereumStratum/1.0.0") ∷ [])))
          none

  -- The rig's name, if it is a text, and its extranonce.
  abbrev pub named_by : List (Json F) → StratumContext → StratumContext
  named_by (scalar (string app) ∷ params) ctx = record ctx { remote_app = app }
  named_by params ctx = ctx

  unfoldable pub assigned : Client F → Client F
  assigned c =
      let (counter, extranonce) =
        assign_extranonce_for_miner (is_bitmain c.ctx.remote_app) bitmain_extranonce_enabled
          c.counter in
      record c { counter = counter; ctx = record c.ctx { extranonce = extranonce } }

  -- The Kaspa Common form, before the authorization.
  unfoldable pub announce_common : Client F → Option (Client F)
  announce_common c =
      deliver
        (v1_notification (codes "set_extranonce") (
          scalar (string c.ctx.extranonce)
          ∷ scalar (number (extranonce2_size c.ctx.extranonce))
          ∷ []))
        c
      then_do deliver
          (v1_notification (codes "mining.set_difficulty") (scalar setup.seed_json ∷ []))

  abbrev pub early_extranonce : Client F → Bool
  early_extranonce c =
      not kaspa_common_protocol && says_iceriver c.ctx.remote_app && not (is_empty c.ctx.extranonce)

  unfoldable pub handle_subscribe : Option (Scalar F) → List (Json F) → Client F → Option (Client F)
  handle_subscribe id params c =
      let c' = assigned (record c { ctx = named_by params c.ctx }) in
      deliver (subscribe_response id c'.ctx) c'
      then_do when kaspa_common_protocol announce_common
      then_do (λ d. when (early_extranonce d) send_extranonce d)

  -- The answer of an authorization, in which the watch for a first job starts.
  abbrev pub late_extranonce : Client F → Bool
  late_extranonce c =
      not (is_empty c.ctx.extranonce)
      && not (is_bitmain c.ctx.remote_app)
      && not (is_iceriver c.ctx.remote_app)
      && not kaspa_common_protocol

  abbrev pub wallet_or_pool : List ℕ → List ℕ
  wallet_or_pool address = elim (clean_wallet is_address address) [
    | some cleaned ↦ cleaned
    | none ↦ setup.pool_fallback_address
  ]

  -- `current` is the difficulty of the connection's jobs.
  unfoldable pub identified : List ℕ → List ℕ → F → ℕ → Client F → Client F
  identified address worker current now c =
      let (stats, ctx) =
        change_identity ops (wallet_or_pool address) worker current now c.ctx c.stats in
      record c { stats = stats; ctx = ensure_default_worker_name ctx }

  -- A session is opened once.
  unfoldable pub open_session : Client F → Client F
  open_session c =
      let (ctx, first) = claim_session_open c.ctx in
      record c { ctx = ctx; opened = if first then c.opened + 1 else c.opened }

  -- The reply and what follows it up to the first job.
  unfoldable pub welcome : Option (Scalar F) → ℕ → Client F → Option (Client F)
  welcome id now c =
      deliver (response id (some (scalar (boolean true))) none) c
      then_do (λ d. some (record d { ctx = mark_authorized now d.ctx }))
      then_do (λ d. when (late_extranonce d) send_extranonce d)

  -- The connection after a login, before the reply.
  abbrev pub logged_in : List ℕ → Option (List ℕ) → F → ℕ → Client F → Client F
  logged_in login password current now c =
      let parts = split_dot login in
      let c1 = identified (part 0 parts) (part 1 parts) current now c in
      let c2 = record c1 { canxium_addr = canxium_of (get_elem? parts 2) c1.canxium_addr } in
      open_session (record c2 { kas_payout = parse_kas_payout is_address password })

  -- `handle_authorize`. An empty list and a first parameter that is no text are errors.
  unfoldable pub handle_authorize :
      Option (Scalar F) → List (Json F) → F → ℕ → Client F → Option (Client F)
  handle_authorize id params current now c = elim (as_str (get_elem? params 0)) [
    | none ↦ none
    | some login ↦ welcome id now (logged_in login (as_str (get_elem? params 1)) current now c)
  ]
