-- ===== src/Handshake/Messages.antt =====
-- What a rig is sent from its subscription to its first job, when its socket takes every message.
use solo_dual_mode.Prelude.{
  ℕ, ◌≡◌, refl, ap, sym, ◌∙◌, Bool, true, false, List, [], ◌∷◌, ◌++◌, Option, none, some, length,
}
use mathlib.Core.List.{append_assoc, append-nil}
use solo_dual_mode.Text.{codes}
use solo_dual_mode.Rpc.{
  Scalar, null, boolean, string, number, float, Json, scalar, array, Message, response,
  v1_notification, send,
}
use solo_dual_mode.Session.{StratumContext, connected, mark_authorized}
use solo_dual_mode.Handshake.{
  Setup, Client, deliver, when, ◌then_do◌, extranonce2_size, extranonce_params, extranonce_message,
  send_extranonce, subscribe_response, named_by, assigned, announce_common, early_extranonce,
  handle_subscribe, late_extranonce, welcome,
}

abbrev pub only_if : {F : Type 0} → Bool → List (Message F) → List (Message F)
only_if true ms = ms
only_if false ms = []

module _ {F : Type 0} (setup : Setup F) where
  abbrev pub common_messages : StratumContext → List (Message F)
  common_messages ctx =
      v1_notification (codes "set_extranonce") (
        scalar (string ctx.extranonce)
        ∷ scalar (number (extranonce2_size setup ctx.extranonce))
        ∷ [])
      ∷ v1_notification (codes "mining.set_difficulty") (scalar setup.seed_json ∷ [])
      ∷ []

  abbrev pub subscribe_messages : Option (Scalar F) → Client F → List (Message F)
  subscribe_messages id c =
      subscribe_response setup id c.ctx
        ∷ only_if setup.kaspa_common_protocol (common_messages c.ctx)
      ++ only_if (early_extranonce setup c) (extranonce_message setup c.ctx ∷ [])

  abbrev pub welcome_messages : Option (Scalar F) → Client F → List (Message F)
  welcome_messages id c =
      response id (some (scalar (boolean true))) none
      ∷ only_if (late_extranonce setup c) (extranonce_message setup c.ctx ∷ [])

  abbrev pub subscribed : List (Json F) → Client F → Client F
  subscribed params c = assigned setup (record c { ctx = named_by setup params c.ctx })

  module _ (takes_all : (n : ℕ) → setup.accepts n ≡ true) where
    deliver_ok :
        (m : Message F) (c : Client F)
        → connected c.ctx ≡ true
        → deliver setup m c ≡ some (record c { wire = c.wire ++ m ∷ [] })
    unfolding deliver send
    deliver_ok m c up = rw (up, deliver, takes_all (length c.wire), send) refl

    when_ok :
        (b : Bool) (m : Message F) (c : Client F)
        → connected c.ctx ≡ true
        → when b (deliver setup m) c ≡ some (record c { wire = c.wire ++ only_if b (m ∷ []) })
    when_ok true m c up = deliver_ok m c up
    when_ok false m c up = ap (λ w. some (record c { wire = w })) (sym (append-nil c.wire))

    -- Two steps in a row put their messages in a row.
    then_ok :
        (c : Client F) (first : Option (Client F)) (next : Client F → Option (Client F))
        (ms ms' : List (Message F))
        → first ≡ some (record c { wire = c.wire ++ ms })
        → next (record c { wire = c.wire ++ ms }) ≡ some (record c { wire = (c.wire ++ ms) ++ ms' })
        → (first then_do next) ≡ some (record c { wire = c.wire ++ (ms ++ ms') })
    then_ok c first next ms ms' p q =
        ap (λ o. o then_do next) p
        ∙ q
        ∙ ap (λ w. some (record c { wire = w })) (append_assoc c.wire ms ms')

    announce_ok :
        (b : Bool) (c : Client F)
        → connected c.ctx ≡ true
        → when b (announce_common setup) c
          ≡ some (record c { wire = c.wire ++ only_if b (common_messages c.ctx) })
    unfolding announce_common
    announce_ok true c up =
        then_ok c _ _ (_ ∷ []) (_ ∷ []) (deliver_ok _ c up)
          (deliver_ok _ (record c { wire = _ }) up)
    announce_ok false c up = ap (λ w. some (record c { wire = w })) (sym (append-nil c.wire))

    named_connected :
        (params : List (Json F)) (ctx : StratumContext)
        → connected (named_by setup params ctx) ≡ connected ctx
    unfolding connected
    named_connected [] ctx = refl
    named_connected (scalar null ∷ params) ctx = refl
    named_connected (scalar (boolean b) ∷ params) ctx = refl
    named_connected (scalar (string app) ∷ params) ctx = refl
    named_connected (scalar (number n) ∷ params) ctx = refl
    named_connected (scalar (float x) ∷ params) ctx = refl
    named_connected (array xs ∷ params) ctx = refl

    pub connected-subscribed :
        (params : List (Json F)) (c : Client F)
        → connected (subscribed params c).ctx ≡ connected c.ctx
    unfolding assigned connected
    connected-subscribed params c = named_connected params c.ctx

    extranonce_ok :
        (b : Bool) (c : Client F)
        → connected c.ctx ≡ true
        → when b (send_extranonce setup) c
          ≡ some (record c { wire = c.wire ++ only_if b (extranonce_message setup c.ctx ∷ []) })
    unfolding send_extranonce
    extranonce_ok true c up = deliver_ok (extranonce_message setup c.ctx) c up
    extranonce_ok false c up = when_ok false (extranonce_message setup c.ctx) c up

    -- A subscription sends exactly these messages, in this order.
    pub subscribe_ok :
        (id : Option (Scalar F)) (params : List (Json F)) (c : Client F)
        → connected c.ctx ≡ true
        → let c' = subscribed params c in
          handle_subscribe setup id params c
          ≡ some (record c' { wire = c'.wire ++ subscribe_messages id c' })
    unfolding handle_subscribe
    subscribe_ok id params c up =
        let c' = subscribed params c in
        let up' : connected c'.ctx ≡ true = connected-subscribed params c ∙ up in
        then_ok c' _ _ _ _
          (then_ok c' _ _ (_ ∷ []) _ (deliver_ok _ c' up')
            (announce_ok setup.kaspa_common_protocol (record c' { wire = _ }) up'))
          (extranonce_ok (early_extranonce setup c') (record c' { wire = _ }) up')

    pub welcome_ok :
        (id : Option (Scalar F)) (now : ℕ) (c : Client F)
        → connected c.ctx ≡ true
        → welcome setup id now c
          ≡ some
              (record c { ctx = mark_authorized now c.ctx; wire = c.wire ++ welcome_messages id c })
    unfolding welcome mark_authorized extranonce_message extranonce_params connected
    welcome_ok id now c up =
        let m = response id (some (scalar (boolean true))) none in
        let d : Client F = record c { ctx = mark_authorized now c.ctx; wire = c.wire ++ m ∷ [] } in
        let e : Client F = record c { ctx = mark_authorized now c.ctx } in
        ap
          (λ o.
            o
            then_do (λ d. some (record d { ctx = mark_authorized now d.ctx }))
            then_do (λ d. when (late_extranonce setup d) (send_extranonce setup) d))
          (deliver_ok m c up)
        ∙ extranonce_ok (late_extranonce setup d) d up
        ∙ ap (λ w. some (record e { wire = w }))
            (append_assoc c.wire (m ∷ [])
              (only_if (late_extranonce setup c) (extranonce_message setup c.ctx ∷ [])))
