-- ===== src/Shared/Consumer.antt =====
-- shared/shared/events/consumer.py: dispatch with retries and dead-lettering.
pub mod Start
pub mod Context
pub mod Link
pub mod Delivery
pub mod Settles
pub mod Poison
pub mod Queue
mod Tests
use text.Mathlib.Text.{◌==◌ as str_eq}
use Prim.Native.Nat.{min}
use ordermesh.Prelude.{
  ℕ, ◌+◌, ◌^◌, String, Option, none, some, List, [], ◌∷◌, leb, if◌then◌else◌, codes,
}
use ordermesh.Prelude.Decimal.{parse_int}
use ordermesh.Shared.Outcome.{Result, ok, raise, value_error}
use ordermesh.Shared.Event.{Event, EventType, name}
use ordermesh.Shared.Broker.{Message, Header, number, label, malformed}

abbrev pub max_retries : ℕ
max_retries = 3

-- What one delivery calls on the channel, `W` being the state that the calls change.
pub record Channel (Body W : Type 0) : Type 0 where
  pub ack : Message Body → W → Result (Unit {0}) × W
  pub reject : Message Body → W → Result (Unit {0}) × W
  pub sleep : ℕ → W → W
  pub publish : Message Body → W → Result (Unit {0}) × W

-- An async handler: it reads the request id of the context.
abbrev pub Handler : Type 0 → Type 0
Handler W = Event → String → W → Result (Unit {0}) × W

abbrev pub Handlers : Type 0 → Type 0
Handlers W = List (String × Handler W)

module _ {W : Type 0} where
  -- `self.handlers[str(event_type)] = handler`
  abbrev pub register : String → Handler W → Handlers W → Handlers W
  register key h [] = (key, h) ∷ []
  register key h ((k, g) ∷ rest) =
      if str_eq k key then (k, h) ∷ rest else (k, g) ∷ register key h rest

  abbrev pub on : EventType → Handler W → Handlers W → Handlers W
  on event_type h handlers = register (name event_type) h handlers

  -- `self.handlers.get(event_type)`
  abbrev pub handler_for : String → Handlers W → Option (Handler W)
  handler_for key [] = none
  handler_for key ((k, h) ∷ rest) = if str_eq k key then some h else handler_for key rest

-- `headers.get("x-retry", 0)` and `headers["x-retry"] = retry`
abbrev pub retry_header : List (String × Header) → Header
retry_header [] = number 0
retry_header ((k, v) ∷ rest) = if str_eq k "x-retry" then v else retry_header rest

abbrev pub set_retry : ℕ → List (String × Header) → List (String × Header)
set_retry n [] = ("x-retry", number n) ∷ []
set_retry n ((k, v) ∷ rest) =
    if str_eq k "x-retry" then (k, number n) ∷ rest else (k, v) ∷ set_retry n rest

abbrev number_in : Option ℕ → Result ℕ
number_in none = raise value_error
number_in (some n) = ok n

-- `int(…)`, of a text if it is decimal digits.
abbrev pub int_of : Header → Result ℕ
int_of (number n) = ok n
int_of (label s) = number_in (parse_int (codes s))
int_of malformed = raise value_error

module _ {Body W : Type 0} where
  -- `_republish`: the new counter in the headers, the backoff, then the exchange.
  unfoldable pub republish : Channel Body W → Message Body → ℕ → W → Result (Unit {0}) × W
  republish ch m retry w =
      ch.publish (record m { headers = set_retry retry m.headers })
        (ch.sleep (min (2 ^ retry) 10) w)

  -- `await …; await message.ack()`
  abbrev pub then_ack :
      Channel Body W → Message Body → Result (Unit {0}) × W → Result (Unit {0}) × W
  then_ack ch m (ok _, w) = ch.ack m w
  then_ack ch m (raise e, w) = (raise e, w)

  -- The `except` block.
  unfoldable pub on_failure : Channel Body W → Message Body → ℕ → W → Result (Unit {0}) × W
  unfolding republish
  on_failure ch m retry w =
      if leb max_retries (retry + 1)
      then ch.reject m w
      else then_ack ch m (republish ch m (retry + 1) w)

-- `if event.request_id:` an absent or empty id leaves the context alone.
abbrev pub has_request_id : Option String → Option String
has_request_id none = none
has_request_id (some rid) = if str_eq rid "" then none else some rid

-- The `finally` block: the context's request id afterwards.
abbrev pub restored : Option String → String → String
restored none ctx = ctx
restored (some old) ctx = old

-- Where the `try` block stands: the token of the context variable (the value to restore), the
-- variable, how the block ended, and the state.
pub record Attempt (W : Type 0) : Type 0 where
  pub token : Option String
  pub request_id : String
  pub result : Result (Unit {0})
  pub world : W

module _ {Body W : Type 0} where
  abbrev pub run_handler :
      Channel Body W
      → Message Body
      → Option (Handler W)
      → Event
      → String
      → W
      → Result (Unit {0}) × W
  run_handler ch m none event ctx w = ch.ack m w
  run_handler ch m (some h) event ctx w = then_ack ch m (h event ctx w)

  abbrev pub dispatch :
      Channel Body W → Handlers W → Message Body → Event → Option String → String → W → Attempt W
  dispatch ch hs m event none ctx w =
      let (r, w') = run_handler ch m (handler_for event.event_type hs) event ctx w in
      record { token = none; request_id = ctx; result = r; world = w' }
  dispatch ch hs m event (some rid) ctx w =
      let (r, w') = run_handler ch m (handler_for event.event_type hs) event rid w in
      record { token = some ctx; request_id = rid; result = r; world = w' }

  -- The `try` block, after `Event.model_validate_json`.
  unfoldable pub attempt :
      Channel Body W → Handlers W → Message Body → Result Event → String → W → Attempt W
  attempt ch hs m (raise e) ctx w = record {
    token = none;
    request_id = ctx;
    result = raise e;
    world = w;
  }
  attempt ch hs m (ok event) ctx w = dispatch ch hs m event (has_request_id event.request_id) ctx w

  abbrev pub caught :
      Channel Body W → Message Body → ℕ → Result (Unit {0}) → W → Result (Unit {0}) × W
  caught ch m retry (ok _) w = (ok tt, w)
  caught ch m retry (raise e) w = on_failure ch m retry w

  abbrev pub with_retry :
      Channel Body W
      → (Body → Result Event)
      → Handlers W
      → Message Body
      → Result ℕ
      → String
      → W
      → Result (Unit {0}) × (String × W)
  with_retry ch validate hs m (raise e) ctx w = (raise e, (ctx, w))
  with_retry ch validate hs m (ok retry) ctx w =
      let a = attempt ch hs m (validate m.body) ctx w in
      let (r, w') = caught ch m retry a.result a.world in (r, (restored a.token a.request_id, w'))

  -- `_handle`: how it ends, the context's request id afterwards, and the state.
  unfoldable pub handle :
      Channel Body W
      → (Body → Result Event)
      → Handlers W
      → Message Body
      → String
      → W
      → Result (Unit {0}) × (String × W)
  unfolding attempt on_failure
  handle ch validate hs m ctx w =
      with_retry ch validate hs m (int_of (retry_header m.headers)) ctx w
