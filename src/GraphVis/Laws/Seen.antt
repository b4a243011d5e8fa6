-- ===== src/GraphVis/Laws/Seen.antt =====
-- app/assets/js/oocsi-graphvis.js: the event source is open when the picture is seen.
use oocsi_web.Common.{Bool, true, false, not, ◌&&◌, ◌||◌, List, [], ◌∷◌, ◌≡◌, arith, ltb}
use oocsi_web.GraphVis.Feed.{
  Feed, start_event_source, stop_event_source, on_feed_error, on_intersection, on_hidden_change,
  initial_feed, FeedStep, fail, retry, intersect, turn, FeedReach, begin_feed, then_step,
}

-- The picture is in view on a page that is shown.
abbrev pub is_seen : Feed → Bool
is_seen f = f.is_visible && not f.hidden

-- The source is open only while the picture is seen, and then it is open or a timeout will open it.
abbrev pub IsGated : Feed → Type 0
IsGated f =
    (f.event_source ≡ true → is_seen f ≡ true)
    × (is_seen f ≡ true → (f.event_source || ltb 0 f.retries) ≡ true)

on_intersection-IsGated :
    (entries : List Bool) (f : Feed) → IsGated f → IsGated (on_intersection entries f)
unfolding on_intersection start_event_source stop_event_source
on_intersection-IsGated [] f h = h
on_intersection-IsGated (true ∷ more) f h = on_intersection-IsGated more _ (ground arith)
on_intersection-IsGated (false ∷ more) f h = on_intersection-IsGated more _ (ground arith)

step-IsGated : {f g : Feed} → FeedStep f g → IsGated f → IsGated g
unfolding on_feed_error on_hidden_change start_event_source stop_event_source
step-IsGated (fail f live) h = ground arith
step-IsGated (retry f n e) h = ground arith
step-IsGated (intersect f entries) h = on_intersection-IsGated entries f h
step-IsGated (turn f hidden) h = ground arith

-- Whatever happens to the page, the event source is open only while the picture is in view on a page
-- that is shown, and while it is, the source is open or a timeout is set that will open it.
pub FeedReach-IsGated : {f : Feed} → FeedReach f → IsGated f
unfolding initial_feed start_event_source
FeedReach-IsGated (begin_feed o hidden) = ground arith
FeedReach-IsGated (then_step r s) = step-IsGated s (FeedReach-IsGated r)
