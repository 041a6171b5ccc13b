-- ===== src/Mdx/Mermaid/Tests.antt =====
-- The theorems on diagrams at concrete inputs.
use quickspin.Text.{trim}
use quickspin.Prelude.{
  put, ℕ, ◌≡◌, refl, ◌↔◌, ◌⊎◌, true, false, none, some, List, [], ◌∷◌, ◌>>=◌, is_some,
}
use quickspin.Text.Units.{codes, is_digit, is_space}
use quickspin.Mdx.Mermaid.{
  failed, svg, error, Render, Diagram, initial, Event, run, Effect, outcome_of, mounts, imported,
  resumes, forgets, delivers, draws, unmounts, step, mount, run_effect, render_mermaid, new_render,
  load_mermaid, render_id, is_id_unit, import_settles, unmount, set_status, resumed, drawn, forget,
  deliver, cancel, settled,
}
use quickspin.Mdx.Mermaid.Promises.{is_held}
use quickspin.Mdx.Mermaid.Tied.{Renders}
use quickspin.Mdx.Mermaid.Undrawn.{is_blank}
use quickspin.Mdx.Mermaid.Cache.{cache_iff, render_once}
use quickspin.Mdx.Mermaid.Broken.{broken_import}
use quickspin.Mdx.Mermaid.Answered.{is_started, answers, answered}
use quickspin.Mdx.Mermaid.Effects.{deliver-current}

-- Two diagrams of one source, which is drawn.
abbrev shared : List Event
shared =
    mounts 0 (codes ":r1:") (codes "g")
    ∷ mounts 1 (codes ":r2:") (codes "g ")
    ∷ imported none
    ∷ resumes 0
    ∷ draws 0 (svg (codes "<svg/>"))
    ∷ []

abbrev shared_render : Render
shared_render = record {
  id = codes "mermaid-r1";
  source = codes "g";
  status = settled (svg (codes "<svg/>"));
}

shared_at : (run shared initial).renders 0 ≡ some shared_render
unfolding run step mount run_effect render_mermaid new_render load_mermaid render_id is_id_unit
    import_settles set_status resumed drawn is_digit is_space trim
shared_at = refl

cache_iff_example :
    let s = run shared initial in
    (s.cache (codes "g") ≡ some 0)
    ↔ ((r : Render) × (s.renders 0 ≡ some r) × (r.source ≡ codes "g") × (is_held r.status ≡ true))
cache_iff_example = cache_iff shared (codes "g") 0

render_once_example : ◌≡◌ {A = ℕ} 0 0
render_once_example =
    render_once shared 0 0 shared_render shared_render shared_at shared_at refl refl refl

abbrev last_effect : Effect
last_effect = record { owner = 1; render = 0; cancelled = false }

abbrev second : Diagram
second = record { use_id = codes ":r2:"; source = codes "g"; effect = 1; result = none }

last_effect_at : (run shared initial).effects 1 ≡ some last_effect
unfolding run step mount run_effect render_mermaid new_render load_mermaid render_id is_id_unit
    import_settles set_status resumed drawn is_digit is_space trim
last_effect_at = refl

shared_outcome :
    ((run shared initial).renders last_effect.render >>= λ r. outcome_of r.status)
    ≡ some (svg (codes "<svg/>"))
shared_outcome = rw shared_at refl

deliver-current_example :
    ((last_effect.cancelled ≡ true) × (deliver 1 (run shared initial) ≡ run shared initial))
    ⊎ ((d : Diagram) × ((run shared initial).mounted 1 ≡ some d)
        × Renders (run shared initial).renders 0 d.source
        × (deliver 1 (run shared initial) ≡ record (run shared initial) {
          mounted =
              put
                (run shared initial).mounted
                1
                (some (record d { result = some (svg (codes "<svg/>")) }));
        }))
deliver-current_example =
    deliver-current shared 1 last_effect (svg (codes "<svg/>")) last_effect_at shared_outcome

-- The library cannot be loaded; the diagram tries again when it is mounted anew.
abbrev offline : List Event
offline = mounts 0 (codes ":r1:") (codes "g") ∷ imported (some (codes "offline")) ∷ []

abbrev retried : List Event
retried =
    resumes 0
    ∷ delivers 0
    ∷ forgets 0
    ∷ unmounts 0
    ∷ mounts 0 (codes ":r1:") (codes "g")
    ∷ resumes 1
    ∷ delivers 1
    ∷ []

abbrev failed_diagram : Diagram
failed_diagram = record {
  use_id = codes ":r1:";
  source = codes "g";
  effect = 1;
  result = some (error (codes "offline"));
}

offline_failed : (run offline initial).ready ≡ failed (codes "offline")
unfolding run step mount run_effect render_mermaid new_render load_mermaid import_settles
offline_failed = refl

failed_diagram_at : (run retried (run offline initial)).mounted 0 ≡ some failed_diagram
unfolding run step mount unmount run_effect render_mermaid new_render load_mermaid render_id
    is_id_unit import_settles set_status resumed forget deliver cancel is_digit is_space trim
failed_diagram_at = refl

broken_import_example :
    ((run retried (run offline initial)).ready ≡ failed (codes "offline"))
    × (is_blank failed_diagram.result ≡ true)
broken_import_example =
    broken_import offline retried (codes "offline") 0 failed_diagram offline_failed
      failed_diagram_at

abbrev mounted_once : List Event
mounted_once = mounts 0 (codes ":r1:") (codes "g") ∷ []

abbrev first_effect : Effect
first_effect = record { owner = 0; render = 0; cancelled = false }

first_effect_at : (run mounted_once initial).effects 0 ≡ some first_effect
unfolding run step mount run_effect render_mermaid new_render
first_effect_at = refl

import_started : is_started (run mounted_once initial).ready ≡ true
unfolding run step mount run_effect render_mermaid new_render load_mermaid
import_started = refl

answered_example :
    (d : Diagram) × ((run (answers 0 0 (svg (codes "<svg/>"))) (run mounted_once initial)).mounted 0
      ≡ some d)
    × (is_some d.result ≡ true)
answered_example =
    answered mounted_once 0 first_effect (svg (codes "<svg/>")) import_started first_effect_at refl
