-- ===== src/Handshake/Tests.antt =====
-- Rigs at a port of each protocol, from the subscription to the first job.
use solo_dual_mode.Prelude.{ℕ, ◌+◌, ◌≡◌, refl, Bool, true, false, [], ◌∷◌, some, none}
use solo_dual_mode.Text.{codes}
use solo_dual_mode.Rpc.{string, number, scalar}
use solo_dual_mode.Session.{new, connected}
use solo_dual_mode.Vardiff.Thousandths.{ops}
use solo_dual_mode.Handshake.{
  Setup, Client, split_dot, part, process_canxium_address, ◌then_do◌, handle_subscribe,
  handle_authorize,
}
use solo_dual_mode.Handshake.Messages.{subscribed}
use solo_dual_mode.Handshake.Tells.{tellings, told}
use solo_dual_mode.Handshake.Told.{expected_tellings, told_once}

abbrev port : Bool → Setup ℕ
port common = record {
  ops = ops;
  kaspa_common_protocol = common;
  bitmain_extranonce_enabled = true;
  is_address = λ text. true;
  pool_fallback_address = codes "zkas:pool";
  seed_json = number 8192;
  accepts = λ n. true;
}

abbrev client : Client ℕ
client = record {
  ctx = new 5555 1;
  kas_payout = none;
  canxium_addr = [];
  counter = 7;
  stats = [];
  wire = [];
  opened = 0;
}

client_connected : connected client.ctx ≡ true
unfolding connected new
client_connected = refl

-- An Icemining rig on the port of the other protocol.
told_once_example :
    told (
      handle_subscribe (port false) none (scalar (string (codes "icemining/1")) ∷ []) client
      then_do handle_authorize (port false) none (scalar (string (codes "zkas:q.rig")) ∷ []) 0 10)
    ≡ some (
        tellings
          (subscribed
            (port false)
            (scalar (string (codes "icemining/1")) ∷ [])
            client).ctx.extranonce
          client.wire
        + expected_tellings false (codes "icemining/1"))
told_once_example =
    told_once (port false) (λ n. refl) none none (scalar (string (codes "icemining/1")) ∷ []) []
      (codes "zkas:q.rig") 0 10 client refl client_connected

canxium :
    process_canxium_address (part 2 (split_dot (codes "zkas:q.rig.0x12"))) ≡ codes "canxiuminer:12"
unfolding process_canxium_address split_dot solo_dual_mode.Text.starts_with
    solo_dual_mode.Text.to_ascii_lowercase
canxium = refl
