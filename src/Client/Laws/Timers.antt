-- ===== src/Client/Laws/Timers.antt =====
-- app/assets/js/oocsi-web.js: the timers and delays of reconnecting.
use oocsi_web.Common.{
  ℕ, zero, suc, ◌+◌, ◌*◌, ◌^◌, ◌≤◌, ◌<◌, Bool, true, false, Option, none, some, List, [], ◌∷◌, ◌≡◌,
  refl, ◌⊎◌, inl, inr, arith, All, Bool-cases, In, here, there, In-append_right, ◌||◌, ◌==◌,
  if◌then◌else◌, min, ◌++◌,
}
use native.Mathlib.Nat.{pow-suc}
use oocsi_web.Client.State.{
  State, Effect, set_timeout, log, Input, Platform, effects, state_of, control, remove_timer,
}
use oocsi_web.Client.Connection.{
  schedule_reconnect, clear_reconnect, on_close, reconnect_delay, max_backoff,
}
use oocsi_web.Client.Api.{Reach, initial}
use oocsi_web.Client.Sound.{Good-of}
use oocsi_web.Client.Sound.Events.{Steady, Reach-Good}

-- Either no timeout will reconnect, or exactly one will, and `reconnectTimer` names it.
abbrev pub HasOneTimer : State → Type 0
HasOneTimer s = (s.timers ≡ []) ⊎ ((t : ℕ) × (s.timers ≡ t ∷ []) × (s.reconnect_timer ≡ some t))

abbrev AnyCall : Effect → Type 0
AnyCall e = Unit {0}

remove_timer_self : (t : ℕ) → remove_timer t (t ∷ []) ≡ []
unfolding remove_timer
remove_timer_self t = ground arith

dropped :
    (s : State) (t : ℕ)
    → HasOneTimer s
    → HasOneTimer (record s { timers = remove_timer t s.timers })
unfolding remove_timer
dropped s t (inl e) = inl (rw e refl)
dropped s t (inr (u, e, n)) = elim (Bool-cases (u == t)) [
  | inl same ↦ inl (rw (e, remove_timer) (ground arith))
  | inr other ↦ inr (u, rw (e, remove_timer) (ground arith), n)
]

AnyCall-All : (es : List Effect) → All AnyCall es
AnyCall-All [] = tt
AnyCall-All (e ∷ es) = (tt, AnyCall-All es)

-- After `clearTimeout` no timeout is left to reconnect.
clear_reconnect-timers : (s : State) → HasOneTimer s → (state_of (clear_reconnect s)).timers ≡ []
unfolding clear_reconnect control remove_timer
clear_reconnect-timers s h = ground arith

scheduled :
    (i : Input) (d : Option ℕ) (s : State)
    → HasOneTimer s
    → HasOneTimer (state_of (schedule_reconnect i d s))
unfolding schedule_reconnect control
scheduled i d s h = ground (arith, clear_reconnect-timers s h)

one_timer : Steady HasOneTimer AnyCall
one_timer = record {
  stable = record {
    transmits = λ r m h. tt;
    shuts = tt;
    logs = λ m. tt;
    invokes = λ f v. tt;
    answers = λ f v r. tt;
    adds_handler = λ s c f h. h;
    clears_handlers = λ s c h. h;
    sets_responders = λ s m n h. h;
    sets_calls = λ s m h. h;
    sets_variables = λ s m h. h;
    sets_waiting = λ s m h. h;
  };
  opens = λ u. tt;
  reports = tt;
  intervals = λ n. tt;
  schedules = λ i d s h. Good-of _ (scheduled i d s h) (AnyCall-All _);
  drops_timer = dropped;
  sets_socket = λ s w h. h;
  counts = λ s n h. h;
  sets_cleanup = λ s b h. h;
  sets_name = λ s u n f h. h;
}

-- In every state that can be reached from the start, at most one timeout will reconnect, and
-- `reconnectTimer` names it, so that it can be cleared.
pub Reach-HasOneTimer : (p : Platform) (s : State) → Reach p s → HasOneTimer s
unfolding initial
Reach-HasOneTimer p s r = Reach-Good one_timer p (inl refl) r

-- The draws of `Math.floor(Math.random() * n)` are below n.
abbrev pub RollsBelow : Input → Type 0
RollsBelow i = (k n : ℕ) → 0 < n → i.roll k n < n

-- The bounds that a delay meets: 30 to 45 seconds after a refusal (code 1013 or a reason with 429),
-- and otherwise below 30 seconds and below half a second doubled at every attempt.
abbrev pub IsBackoff : (refused : Bool) → (attempts delay : ℕ) → Type 0
IsBackoff true attempts delay = (30000 ≤ delay) × (delay < 45000)
IsBackoff false attempts delay = (delay < 30000) × (delay < 500 * 2 ^ attempts)

pow_pos : (n : ℕ) → 0 < 2 ^ n
pow_pos zero = omega arith
pow_pos (suc n) = omega (arith, pow-suc 2 n, pow_pos n)

reconnect_delay-IsBackoff :
    (i : Input) (refused : Bool) (attempts : ℕ)
    → RollsBelow i
    → IsBackoff refused attempts
        (reconnect_delay i (if refused then some (30000 + i.roll 0 15000) else none) attempts)
unfolding reconnect_delay max_backoff
reconnect_delay-IsBackoff i true attempts rolls = omega (arith, rolls 0 15000)
reconnect_delay-IsBackoff i false attempts rolls =
    let drawn : 0 < min 30000 (500 * 2 ^ attempts) = omega (arith, pow_pos attempts) in
    omega (arith, rolls 0 (min 30000 (500 * 2 ^ attempts)) drawn)

schedule_reconnect-effects :
    (i : Input) (d : Option ℕ) (s : State)
    → i.hidden ≡ false
    → effects (schedule_reconnect i d s)
      ≡ effects (clear_reconnect s)
        ++ set_timeout s.next_timer (reconnect_delay i d s.reconnect_attempts) ∷ []
unfolding schedule_reconnect clear_reconnect control
schedule_reconnect-effects i d s shown = ground arith

schedule_reconnect-timers :
    (i : Input) (d : Option ℕ) (s : State)
    → i.hidden ≡ false
    → HasOneTimer s
    → (state_of (schedule_reconnect i d s)).timers ≡ s.next_timer ∷ []
unfolding schedule_reconnect clear_reconnect control remove_timer
schedule_reconnect-timers i d s shown h = ground arith

on_close-effects :
    (i : Input) (c : ℕ) (b : Bool) (s : State)
    → effects (on_close i c b s)
      ≡ log "DISCONNECTED"
        ∷ effects (
            schedule_reconnect i (if c == 1013 || b then some (30000 + i.roll 0 15000) else none) s)
unfolding on_close control
on_close-effects i c b s = ground arith

on_close-state :
    (i : Input) (c : ℕ) (b : Bool) (s : State)
    → state_of (on_close i c b s)
      ≡ state_of
          (schedule_reconnect i (if c == 1013 || b then some (30000 + i.roll 0 15000) else none) s)
unfolding on_close control
on_close-state i c b s = ground arith

-- On a page that is shown, a close sets one timeout, whose delay meets the bounds of the backoff,
-- and that timeout is then the only one that will reconnect.
pub on_close-IsBackoff :
    (i : Input) (c : ℕ) (says_429 : Bool) (s : State)
    → i.hidden ≡ false
    → RollsBelow i
    → HasOneTimer s
    → (d : ℕ) × In (set_timeout s.next_timer d) (effects (on_close i c says_429 s))
      × IsBackoff (c == 1013 || says_429) s.reconnect_attempts d
      × ((state_of (on_close i c says_429 s)).timers ≡ s.next_timer ∷ [])
on_close-IsBackoff i c says_429 s shown rolls h =
    let forced = if c == 1013 || says_429 then some (30000 + i.roll 0 15000) else none in
    (
      reconnect_delay i forced s.reconnect_attempts,
      rw (on_close-effects i c says_429 s, schedule_reconnect-effects i forced s shown)
          (there (In-append_right _ here)),
      reconnect_delay-IsBackoff i (c == 1013 || says_429) s.reconnect_attempts rolls,
      rw (on_close-state i c says_429 s) (schedule_reconnect-timers i forced s shown h),
    )
