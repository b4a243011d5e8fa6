-- ===== src/Client/State.antt =====
-- app/assets/js/oocsi-web.js: the variables of the module, its timers and closures, what it calls
-- on the browser, and the sequencing of statements that may throw.
use oocsi_web.Common.{
  ℕ, String, Bool, true, false, Option, none, some, List, [], ◌∷◌, ◌++◌, ◌==◌, ◌&&◌, if◌then◌else◌,
}
use oocsi_web.Common.Dict.{Dict}
use oocsi_web.Json.{Value, Fields}

pub data ReadyState : Type 0 where
  connecting open_ closing closed : ReadyState

abbrev pub is_connecting : ReadyState → Bool
is_connecting connecting = true
is_connecting _ = false

abbrev pub is_open : ReadyState → Bool
is_open open_ = true
is_open _ = false

-- A function value that the module keeps: one of the page's, the closure that `register` makes
-- for a responder, or the closure that `variable` subscribes. A closure is told from others of its
-- kind by the number it got when it was made.
pub data Callback : Type 0 where
  user : ℕ → Callback
  responder : (id : ℕ) → Option ℕ → Callback
  feed : ℕ → Callback

same_function : Option ℕ → Option ℕ → Bool
same_function none none = true
same_function (some f) (some g) = f == g
same_function _ _ = false

-- `===` of functions, as `indexOf` compares them.
unfoldable pub same_callback : Callback → Callback → Bool
unfolding same_function
same_callback (user m) (user n) = m == n
same_callback (responder i f) (responder j g) = i == j && same_function f g
same_callback (feed m) (feed n) = m == n
same_callback _ _ = false

-- An entry of `calls`; `fn` is `none` where the caller gave no function.
pub record PendingCall : Type 0 where
  pub expiration : ℕ
  pub fn : Option ℕ

-- What `variable` closes over. The listeners are functions of the page.
pub record Variable : Type 0 where
  pub channel : String
  pub name : String
  pub throttle : ℕ
  pub listeners : List ℕ
  pub value : Value
  pub last_update : ℕ

-- A call that `waitForSocket` holds back, with its arguments.
pub data Deferred : Type 0 where
  send_data : String → Fields → Deferred
  call_function : String → Fields → (timeout : ℕ) → Option ℕ → Deferred
  register_responder : String → Option ℕ → Deferred
  subscribe_channel : String → Option Callback → Deferred
  unsubscribe_channel : String → Deferred
  close_socket : Deferred
  resubscribe : Deferred

pub record State : Type 0 where
  pub ws_uri : String
  pub username : Option String
  pub handlers : Dict (List Callback)
  pub responders : Dict (Option ℕ)
  pub calls : Dict PendingCall
  -- The ready state of the socket in `websocket`, if there is one.
  pub websocket : Option ReadyState
  -- The number of the last timeout that `scheduleReconnect` set and did not clear.
  pub reconnect_timer : Option ℕ
  pub reconnect_attempts : ℕ
  pub cleanup_running : Bool
  -- The browser's timeouts: those that will reconnect, and those that retry a deferred call.
  pub timers : List ℕ
  pub waiting : List Deferred
  pub variables : List Variable
  -- The next number for a timeout, and for a closure.
  pub next_timer : ℕ
  pub next_closure : ℕ

-- What the module calls on the browser and on the page, in order. `log` and `report_error` call `logger` and
-- `error`: the default functions, which do nothing, or functions of the page that throw nothing.
pub data Effect : Type 0 where
  open_socket : String → Effect
  -- The ready state is the one that the socket had at the call.
  transmit : ReadyState → String → Effect
  shut_socket : Effect
  set_timeout : (id delay : ℕ) → Effect
  clear_timeout : ℕ → Effect
  set_interval : ℕ → Effect
  log : String → Effect
  report_error : Effect
  -- A function of the page gets one argument; a responder also gets the response to fill in.
  invoke : ℕ → Value → Effect
  answer : ℕ → Value → Fields → Effect

-- What the browser gives at one event: the clock, `document.hidden` (false where there is no
-- document), the text of `crypto.randomUUID()` if there is one, whether there is a
-- `crypto.getRandomValues`, the k-th byte that it draws, and the k-th draw of
-- `Math.floor(Math.random() * n)`.
pub record Input : Type 0 where
  pub now : ℕ
  pub hidden : Bool
  pub random_uuid : Option String
  pub random_values : Bool
  pub byte : ℕ → ℕ
  pub roll : ℕ → ℕ → ℕ

-- The browser's JSON functions, and the functions of the page: whether one throws on an argument,
-- the fields that a responder leaves in the response, and `===` of two values.
pub record Platform : Type 0 where
  pub parse : String → Option Value
  pub stringify : Value → String
  pub throws : ℕ → Value → Bool
  pub respond : ℕ → Value → Fields → Fields
  pub same_value : Value → Value → Bool

-- The browser's timeouts without one of them.
unfoldable pub remove_timer : ℕ → List ℕ → List ℕ
remove_timer t [] = []
remove_timer t (u ∷ us) = let rest = remove_timer t us in if u == t then rest else u ∷ rest

-- The outcome of a statement: the state, the calls made, and whether it threw.
pub data Outcome : Type 0 where
  outcome : State → List Effect → Bool → Outcome

abbrev pub state_of : Outcome → State
state_of (outcome s es t) = s

abbrev pub effects : Outcome → List Effect
effects (outcome s es t) = es

abbrev pub threw : Outcome → Bool
threw (outcome s es t) = t

abbrev pub Action : Type 0
Action = State → Outcome

abbrev pub skip : Action
skip s = outcome s [] false

abbrev pub throw : Action
throw s = outcome s [] true

abbrev pub emit : Effect → Action
emit e s = outcome s (e ∷ []) false

abbrev pub assign : (State → State) → Action
assign f s = outcome (f s) [] false

unfoldable pub when : Bool → Action → Action
when true a s = a s
when false a s = skip s

-- A branch on a value that may be `undefined`.
unfoldable pub option_case {ℓ} : {A : Type ℓ} → Option A → Action → (A → Action) → Action
option_case none a f s = a s
option_case (some x) a f s = f x s

unfoldable pub branch : Bool → Action → Action → Action
branch true a b s = a s
branch false a b s = b s

unfoldable pub prefix_out : List Effect → Outcome → Outcome
prefix_out es (outcome s out t) = outcome s (es ++ out) t

-- The statement is not run if the one before it threw.
unfoldable pub follow : Outcome → Action → Outcome
unfolding prefix_out
follow (outcome s es true) b = outcome s es true
follow (outcome s es false) b = prefix_out es (b s)

infixl 5 ◌>>◌
abbrev pub ◌>>◌ : Action → Action → Action
(a >> b) s = follow (a s) b

unfoldable pub recover : Outcome → Action → Outcome
unfolding prefix_out
recover (outcome s es true) handler = prefix_out es (handler s)
recover (outcome s es false) handler = outcome s es false

-- `try { … } catch (e) { … }`: what was done before the exception stays done.
abbrev pub try_catch : Action → Action → Action
try_catch body handler s = recover (body s) handler

-- The names of the branches and sequences, for proofs that compute with statements.
unfoldable pub control : Unit {0}
unfolding when option_case branch follow recover
control = tt
