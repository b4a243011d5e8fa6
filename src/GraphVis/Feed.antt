-- ===== src/GraphVis/Feed.antt =====
-- app/assets/js/oocsi-graphvis.js: the event source and the events of the page that open
-- and close it.
use oocsi_web.Common.{ℕ, suc, Bool, true, false, not, ◌||◌, ◌&&◌, List, [], ◌∷◌, ◌≡◌, if◌then◌else◌}

-- `eventSource`, `isVisible`, `document.hidden`, and the number of timeouts that will call
-- `startEventSource`; a source that was closed never runs a listener again.
pub record Feed : Type 0 where
  pub event_source : Bool
  pub is_visible : Bool
  pub hidden : Bool
  pub retries : ℕ

-- `startEventSource` and `stopEventSource`.
unfoldable pub start_event_source : Feed → Feed
start_event_source f =
    if f.event_source || f.hidden || not f.is_visible then f else record f { event_source = true }

unfoldable pub stop_event_source : Feed → Feed
stop_event_source f = record f { event_source = false }

-- The listener of an error.
unfoldable pub on_feed_error : Feed → Feed
unfolding stop_event_source
on_feed_error f =
    let stopped = stop_event_source f in
    if stopped.is_visible && not stopped.hidden
    then record stopped { retries = suc stopped.retries }
    else stopped

-- The function of the observer, with what each entry says.
unfoldable pub on_intersection : List Bool → Feed → Feed
unfolding start_event_source stop_event_source
on_intersection [] f = f
on_intersection (seen ∷ more) f =
    let seen_now = record f { is_visible = seen } in
    let started = on_intersection more (start_event_source seen_now) in
    let stopped = on_intersection more (stop_event_source seen_now) in
    if seen then started else stopped

-- The listener of `visibilitychange`, after which `document.hidden` is as it says.
unfoldable pub on_hidden_change : (hidden : Bool) → Feed → Feed
unfolding start_event_source stop_event_source
on_hidden_change hidden f =
    let changed = record f { hidden = hidden } in
    if hidden
    then stop_event_source changed
    else if f.is_visible
    then start_event_source changed
    else changed

-- The feed as it is made, and its first action where the browser has no observer.
unfoldable pub initial_feed : (has_observer hidden : Bool) → Feed
unfolding start_event_source
initial_feed has_observer hidden =
    let made : Feed = record {
      event_source = false;
      is_visible = false;
      hidden = hidden;
      retries = 0;
    } in
    if has_observer then made else start_event_source (record made { is_visible = true })

-- What happens to a feed: an error of the open source, a timeout, and the events of the page.
pub data FeedStep : Feed → Feed → Type 0 where
  fail : (f : Feed) → f.event_source ≡ true → FeedStep f (on_feed_error f)
  retry :
      (f : Feed) (n : ℕ)
      → f.retries ≡ suc n
      → FeedStep f (start_event_source (record f { retries = n }))
  intersect : (f : Feed) (entries : List Bool) → FeedStep f (on_intersection entries f)
  turn : (f : Feed) (hidden : Bool) → FeedStep f (on_hidden_change hidden f)

pub data FeedReach : Feed → Type 0 where
  begin_feed : (has_observer hidden : Bool) → FeedReach (initial_feed has_observer hidden)
  then_step : {f g : Feed} → FeedReach f → FeedStep f g → FeedReach g
