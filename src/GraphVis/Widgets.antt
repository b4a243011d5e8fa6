-- ===== src/GraphVis/Widgets.antt =====
-- app/assets/js/oocsi-graphvis.js: the sparklines, and what the page counts for them each second.
use oocsi_web.Common.{
  ℕ, Bool, true, false, ◌&&◌, List, [], ◌∷◌, ◌++◌, if◌then◌else◌, ltb, length, keep,
}
use oocsi_web.GraphVis.Path.{Link, LinkType, client, is_subscription}
use oocsi_web.GraphVis.Graph.{Graph}

-- `while(data.length > 100) { data.shift(); }`.
unfoldable pub shift_data : List ℕ → List ℕ
shift_data [] = []
shift_data (d ∷ numbers) =
    let shorter = shift_data numbers in
    if ltb 100 (length (d ∷ numbers)) then shorter else d ∷ numbers

-- The function that `buildSparkline` returns: the numbers drawn, of which the last is written beside.
unfoldable pub push_datum : ℕ → List ℕ → List ℕ
unfolding shift_data
push_datum d numbers = shift_data numbers ++ d ∷ []

-- `data` of a new sparkline.
abbrev pub first_data : List ℕ
first_data = 0 ∷ 0 ∷ 0 ∷ 0 ∷ []

-- `l.type === 'client'`.
unfoldable pub is_client_link : LinkType → Bool
is_client_link client = true
is_client_link _ = false

-- The number of links of a kind that live on.
unfoldable pub count_alive : (is_kind : LinkType → Bool) → (now : ℕ) → List Link → ℕ
count_alive is_kind now links = length (keep (λ l. is_kind l.type && ltb now l.ttl) links)

-- The data of the three sparklines.
pub record Sparklines : Type 0 where
  pub messages : List ℕ
  pub clients : List ℕ
  pub subscriptions : List ℕ

abbrev pub first_sparklines : Sparklines
first_sparklines = record {
  messages = first_data;
  clients = first_data;
  subscriptions = first_data;
}

-- The function of the interval, each second, where the view is large enough for the widgets.
unfoldable pub each_second : (now : ℕ) → Sparklines × Graph → Sparklines × Graph
unfolding push_datum is_client_link count_alive
each_second now (w, g) = (
  record {
    messages = push_datum g.reqs_counter w.messages;
    clients = push_datum (count_alive is_client_link now g.links) w.clients;
    subscriptions = push_datum (count_alive is_subscription now g.links) w.subscriptions;
  },
  record g { reqs_counter = 0 },
)
