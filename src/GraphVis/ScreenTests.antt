-- ===== src/GraphVis/ScreenTests.antt =====
-- A short run of the page: two messages in the first second, and one in the next.
use oocsi_web.Common.{
  All, ℕ, String, Bool, false, Option, none, some, [], ◌∷◌, ◌++◌, ◌≡◌, refl, here, there,
  if◌then◌else◌, str_eq,
}
use oocsi_web.Common.Text.{length_text}
use oocsi_web.Common.Text.Pieces.{lacks}
use oocsi_web.Json.{Value, str, arr, obj, field, end, nil, cons, truthy, property, get_field}
use oocsi_web.GraphVis.Graph.{initial_graph}
use oocsi_web.GraphVis.Path.{search, scan, trace}
use oocsi_web.GraphVis.Message.{show_subscribers, is_node_filtered}
use oocsi_web.GraphVis.Feed.{initial_feed, start_event_source}
use oocsi_web.GraphVis.Widgets.{first_data}
use oocsi_web.GraphVis.Report.{Report, read_text, report, texts, as_array, as_text}
use oocsi_web.GraphVis.Screen.{
  Telling, Breaks, breaks, Screen, start_screen, set_telling, receive, pass_second, message, second,
  Run, begin_run, hear, tick,
}
use oocsi_web.GraphVis.Dragging.{
  Stage, Drags, active_beside, set_target, change, drag_ended, appear, drag_started, dragged,
  empty_stage, appears, starts, drags, ends,
}
use oocsi_web.GraphVis.Laws.Dragging.{IsSettled, Drags-IsSettled}
use oocsi_web.GraphVis.Laws.Sparkline.{last_of, tally}
use oocsi_web.GraphVis.Laws.Counting.{Run-tally}
use oocsi_web.GraphVis.Laws.Dots.{IsWell}
use oocsi_web.GraphVis.Laws.Seen.{IsGated}
use oocsi_web.GraphVis.Laws.Names.{joined}
use oocsi_web.GraphVis.Laws.Telling.{IsShowable, short, named}
use oocsi_web.GraphVis.Laws.Screens.{IsAwaited, Run-IsWell}
use oocsi_web.GraphVis.Laws.Told.{IsTold, receive-IsTold, Breaks-cause}

abbrev lower : String → String
lower s = s

abbrev same_text : String → String → Bool
same_text s t = str_eq s t

abbrev light_message : Value
light_message = obj (
    field "PUB" (str "ann") (
      field "CHANNEL" (str "home/light")
        (field "SUB" (arr (cons (str "me") (cons (str "desk/lamp") nil))) end)))

abbrev parse_message : String → Option Value
parse_message text = if str_eq text "m" then some light_message else none

abbrev light_report : Report
light_report = record {
  sender = "ann";
  channel = "home/light";
  subscribers = "me" ∷ "desk/lamp" ∷ [];
}

abbrev shown_page : Screen
shown_page = start_screen "" "" false false

light_read : read_text parse_message "m" ≡ some light_message
unfolding read_text truthy
light_read = refl

light_reported : report light_message ≡ some light_report
unfolding report texts as_array as_text property get_field
light_reported = refl

abbrev heard : Screen
heard = receive lower same_text parse_message 1000 light_report shown_page

run_heard : Run lower same_text parse_message (message "home/light" ∷ []) heard
unfolding start_screen initial_feed start_event_source
run_heard =
    hear "m" light_message light_report (begin_run "" "" false false) refl light_read light_reported
      1000

run_second :
    Run lower same_text parse_message (second ∷ message "home/light" ∷ []) (pass_second 2000 heard)
run_second = tick run_heard 2000

Run-tally_example :
    (pass_second 2000 heard).sparklines.messages
    ≡ last_of 101 (
        first_data
        ++ (tally lower same_text
            (pass_second 2000 heard).graph.channel_filter
            (second ∷ message "home/light" ∷ [])).0)
Run-tally_example = Run-tally lower same_text parse_message run_second

Run-IsWell_example :
    IsWell heard.graph × IsAwaited lower same_text heard.graph heard.tellings × IsGated heard.feed
Run-IsWell_example = Run-IsWell lower same_text parse_message run_heard

-- The timeout of the first message comes when another message has been heard.
receive-IsTold_example :
    IsTold lower same_text parse_message 1000 3000 light_report shown_page heard.graph "desk/lamp"
unfolding joined lacks length_text start_screen initial_graph
receive-IsTold_example =
    receive-IsTold lower same_text parse_message (begin_run "" "" false false) run_heard 1000 3000
      "ann" "home" "desk" [] ("light" ∷ []) ("lamp" ∷ []) ("me" ∷ "desk/lamp" ∷ [])
      ((refl, refl), tt) ((refl, refl), ((refl, refl), tt)) refl
      (short "me" refl, (named "desk" ("lamp" ∷ []) ((refl, refl), ((refl, refl), tt)), tt))
      (there here) ((refl, refl), ((refl, refl), tt)) refl (λ i m. m)

-- A subscriber whose name has no pieces.
abbrev slashes : Value
slashes =
    obj (field "PUB" (str "ann") (field "CHANNEL" (str "light") (field "SUB" (str "///") end)))

abbrev slashes_report : Report
slashes_report = record { sender = "ann"; channel = "light"; subscribers = "///" ∷ [] }

abbrev parse_slashes : String → Option Value
parse_slashes text = some slashes

abbrev strange : Screen
strange = receive lower same_text parse_slashes 1000 slashes_report shown_page

abbrev telling : Telling
telling = record { delay = 1600; target = 3; subscribers = "///" ∷ [] }

strange_telling : strange.tellings ≡ telling ∷ []
unfolding receive start_screen initial_graph search scan trace is_node_filtered set_telling
strange_telling = refl

strange_none :
    show_subscribers lower same_text 2600 telling.target telling.subscribers strange.graph ≡ none
unfolding receive start_screen initial_graph search scan trace is_node_filtered set_telling
    show_subscribers length_text
strange_none = refl

strange-Breaks : Breaks lower same_text parse_slashes strange telling
unfolding start_screen initial_feed start_event_source read_text truthy report texts as_array
    as_text property get_field
strange-Breaks =
    breaks (hear "b" slashes slashes_report (begin_run "" "" false false) refl refl refl 1000) [] []
      telling strange_telling 2600 strange_none

Breaks-cause_example : ¬ All IsShowable ("///" ∷ [])
Breaks-cause_example = Breaks-cause lower same_text parse_slashes strange telling strange-Breaks

-- A node is dragged, and another one appears.
Drags-IsSettled_example : IsSettled {Coord = ℕ} (0 ∷ []) (
    appear 1 3 4
      (dragged 7 8 0 (drag_started 0 0 (appear 0 5 6 (record { bodies = []; alpha_target = 0 })))))
unfolding active_beside
Drags-IsSettled_example =
    Drags-IsSettled (λ d. d) (0 ∷ []) _
      (appears (drags [] [] 0 (starts (appears empty_stage 0 5 6) 0) refl 7 8) 1 3 4)

-- Two fingers drag nodes that two updates added: the first that ends cools the simulation, and the other goes on.
abbrev two_nodes : Stage ℕ
two_nodes = appear 1 3 4 (appear 0 5 6 (record { bodies = []; alpha_target = 0 }))

cooled : (drag_ended 0 1 (drag_started 0 1 (drag_started 0 0 two_nodes))).alpha_target ≡ 0
unfolding drag_ended drag_started set_target change appear
cooled = refl

cooled-Drags :
    Drags (λ d. d) (0 ∷ []) (drag_ended 0 1 (drag_started 0 1 (drag_started 0 0 two_nodes)))
unfolding active_beside
cooled-Drags =
    ends [] (0 ∷ []) 1 (starts (starts (appears (appears empty_stage 0 5 6) 1 3 4) 0) 1) refl
