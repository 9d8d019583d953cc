-- ===== src/Rpc.antt =====
-- bridge-src/bridge/src/jsonrpc_event.rs: the names of the methods, and the messages that the bridge
-- sends. JSON is what the bridge builds: scalars and arrays of them.
pub mod Names
mod Tests
use solo_dual_mode.Prelude.{
  ℕ, ◌+◌, ◌≡◌, Bool, true, false, List, [], ◌∷◌, ◌++◌, Option, none, some, ite, length,
  if◌then◌else◌,
}
use solo_dual_mode.Text.{codes, text_dec}

pub data StratumMethod : Type 0 where
  subscribe extranonce_subscribe authorize submit set_difficulty notify set_extranonce :
      StratumMethod
  other : List ℕ → StratumMethod

-- `From<StratumMethod> for String`.
unfoldable pub method_name : StratumMethod → List ℕ
method_name subscribe = codes "mining.subscribe"
method_name extranonce_subscribe = codes "mining.extranonce.subscribe"
method_name authorize = codes "mining.authorize"
method_name submit = codes "mining.submit"
method_name set_difficulty = codes "mining.set_difficulty"
method_name notify = codes "mining.notify"
method_name set_extranonce = codes "mining.set_extranonce"
method_name (other s) = s

-- The arms of `From<&str> for StratumMethod`, with their own literals.
abbrev pub method_arms : List (List ℕ × StratumMethod)
method_arms =
    (codes "mining.subscribe", subscribe)
    ∷ (codes "mining.extranonce.subscribe", extranonce_subscribe)
    ∷ (codes "mining.authorize", authorize)
    ∷ (codes "mining.submit", submit)
    ∷ (codes "mining.set_difficulty", set_difficulty)
    ∷ (codes "mining.notify", notify)
    ∷ (codes "mining.set_extranonce", set_extranonce)
    ∷ []

-- The first arm with the text, and `other` when there is none.
unfoldable pub match_arms : List (List ℕ × StratumMethod) → List ℕ → StratumMethod
match_arms [] s = other s
match_arms ((literal, m) ∷ arms) s = ite (text_dec literal s) m (match_arms arms s)

-- `From<&str> for StratumMethod`.
unfoldable pub method_of : List ℕ → StratumMethod
method_of s = match_arms method_arms s

-- A floating-point number is carried as it is.
pub data Scalar (F : Type 0) : Type 0 where
  null : Scalar F
  boolean : Bool → Scalar F
  string : List ℕ → Scalar F
  number : ℕ → Scalar F
  float : F → Scalar F

pub data Json (F : Type 0) : Type 0 where
  scalar : Scalar F → Json F
  array : List (Scalar F) → Json F

-- A response, an event with its version and identifier, the minimal notification, and the one with
-- an identifier that is null.
pub data Message (F : Type 0) : Type 0 where
  response : Option (Scalar F) → Option (Json F) → Option (List (Scalar F)) → Message F
  event : Option (Scalar F) → List ℕ → List (Json F) → Message F
  notification : List ℕ → List (Json F) → Message F
  v1_notification : List ℕ → List (Json F) → Message F

-- `JsonRpcResponse::error` without data.
abbrev pub error_response : {F : Type 0} → Option (Scalar F) → ℕ → List ℕ → Message F
error_response id code message = response id none (some (number code ∷ string message ∷ null ∷ []))

-- The messages that went out on a connection. `accepts n` is whether the socket takes the message
-- after `n` others, after whatever retries: a socket that has failed on a message fails on the next
-- ones too.
abbrev pub Wire : Type 0 → Type 0
Wire F = List (Message F)

unfoldable pub send : {F : Type 0} → (ℕ → Bool) → Message F → Wire F → Option (Wire F)
send accepts m wire = if accepts (length wire) then some (wire ++ m ∷ []) else none
