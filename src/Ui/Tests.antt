-- ===== src/Ui/Tests.antt =====
-- The theorems on the sidebar's toggles at concrete inputs.
use quickspin.Text.Units.{codes}
use quickspin.Prelude.{◌≡◌, true, false, not, List, [], ◌∷◌}
use quickspin.Ui.Sidebar.{
  SidebarState, SidebarEvent, initial, step, run, toggled, key_down, resized, measure,
}
use quickspin.Ui.Sidebar.Toggling.{
  shown, uncontrolled, Recorded, toggle_sidebar-toggle_sidebar, run-initial-Recorded,
}

abbrev start : SidebarState
start = measure 1200 (initial (uncontrolled true))

toggle_sidebar-toggle_sidebar_example :
    (shown (uncontrolled true) (step (uncontrolled true) toggled start)
      ≡ not (shown (uncontrolled true) start))
    × (shown
          (uncontrolled true)
          (step (uncontrolled true) toggled (step (uncontrolled true) toggled start))
        ≡ shown (uncontrolled true) start)
toggle_sidebar-toggle_sidebar_example = toggle_sidebar-toggle_sidebar true start

abbrev events : List SidebarEvent
events =
    toggled
    ∷ key_down (record { key = codes "b"; meta_key = false; ctrl_key = true })
    ∷ resized 500
    ∷ toggled
    ∷ []

run-initial-Recorded_example :
    Recorded true (run (uncontrolled true) events (initial (uncontrolled true)))
run-initial-Recorded_example = run-initial-Recorded true events
