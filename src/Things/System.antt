-- ===== src/Things/System.antt =====
-- app/assets/js/things/oocsi-things.js on app/assets/js/oocsi-web.js: what the functions of the page do when
-- the client calls them, and the events of the client that come of it.
use oocsi_web.Common.{ℕ, List, [], ◌∷◌, ◌++◌}
use oocsi_web.Client.State.{Effect, invoke}
use oocsi_web.Client.Api.{Event}
use oocsi_web.Things.Registry.{Page, invoke_function}

-- The page runs the functions that the client called, in order.
unfoldable pub serve : (now : ℕ) → List Effect → Page → Page × List Event
unfolding invoke_function
serve now [] p = (p, [])
serve now (invoke f v ∷ effects) p =
    let (q, events) = invoke_function now f v p in
    let (r, later) = serve now effects q in (r, events ++ later)
serve now (_ ∷ effects) p = serve now effects p
