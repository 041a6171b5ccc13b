-- ===== src/Ui/Sidebar/Toggling.antt =====
-- What the toggles of the sidebar do to what is shown, and what the cookie keeps.
use quickspin.Prelude.{
  ◌≡◌, refl, ◌⊎◌, inl, inr, Bool, true, false, not, none, some, List, [], ◌∷◌, if◌then◌else◌,
  Bool-cases, ℕ, ◌≢◌, ◌&&◌, ◌||◌, All,
}
use quickspin.Text.{text_eq}
use quickspin.Ui.Sidebar.{sidebar_keyboard_shortcut, KeyEvent}
use quickspin.Ui.Sidebar.{
  ProviderProps, SidebarState, SidebarEvent, is_mobile, initial, context, cookie_text, set_open,
  toggle_sidebar, step, run, toggled, key_down, sheet_changed, resized, measure, handle_key_down,
  set_open_mobile,
}

-- What the reader sees open: the sheet on a small screen, the sidebar on a wide one.
abbrev pub shown : ProviderProps → SidebarState → Bool
shown p s = let c = context p s in if c.mobile then c.mobile_open else c.is_open

-- A provider that keeps its own state, and one that is told from outside and reports changes.
abbrev pub uncontrolled : Bool → ProviderProps
uncontrolled default_open' = record {
  default_open = default_open';
  open_prop = none;
  has_set_open_prop = false;
}

abbrev pub controlled : (default_open' value : Bool) → ProviderProps
controlled default_open' value = record {
  default_open = default_open';
  open_prop = some value;
  has_set_open_prop = true;
}

not-not : (b : Bool) → not (not b) ≡ b
not-not true = refl
not-not false = refl

-- In a provider that keeps its own state, a toggle shows what was hidden and hides what was shown,
-- on a small screen and on a wide one, and a second toggle, after a render, brings back what was
-- shown.
pub toggle_sidebar-toggle_sidebar :
    (d : Bool) (s : SidebarState)
    → (shown (uncontrolled d) (step (uncontrolled d) toggled s) ≡ not (shown (uncontrolled d) s))
      × (shown (uncontrolled d) (step (uncontrolled d) toggled (step (uncontrolled d) toggled s))
          ≡ shown (uncontrolled d) s)
unfolding step toggle_sidebar context set_open
toggle_sidebar-toggle_sidebar d s = elim (Bool-cases (is_mobile s.is_mobile_state)) [
  | inl k ↦ (simp (k), simp (k, not-not))
  | inr k ↦ (simp (k), simp (k, not-not))
]

-- A property that the operations keep, each with what was rendered before it, is kept by any events.
module _ (p : ProviderProps) (P : SidebarState → Type 0)
    (opens : (s : SidebarState) → P s → P (set_open p (context p s) not s))
    (slides : (s : SidebarState) (value : Bool) → P s → P (set_open_mobile value s))
    (measures : (s : SidebarState) (width : ℕ) → P s → P (measure width s)) where
  toggle_sidebar_keeps : (s : SidebarState) → P s → P (toggle_sidebar p (context p s) s)
  unfolding toggle_sidebar context is_mobile set_open
  toggle_sidebar_keeps s h = elim (Bool-cases (context p s).mobile) [
    | inl k ↦ rw (k, toggle_sidebar) (slides s (not s.open_mobile) h)
    | inr k ↦ rw (k, toggle_sidebar) (opens s h)
  ]

  handle_key_down_keeps :
      (event : KeyEvent) (s : SidebarState) → P s → P (handle_key_down p (context p s) event s).1
  unfolding handle_key_down
  handle_key_down_keeps event s h =
      elim (Bool-cases
        (text_eq event.key sidebar_keyboard_shortcut && (event.meta_key || event.ctrl_key))) [
          | inl k ↦ rw (k, handle_key_down) (toggle_sidebar_keeps s h)
          | inr k ↦ rw (k, handle_key_down) h
        ]

  run_keeps : (es : List SidebarEvent) (s : SidebarState) → P s → P (run p es s)
  unfolding run step
  run_keeps [] s h = h
  run_keeps (toggled ∷ es) s h =
      run_keeps es (toggle_sidebar p (context p s) s) (toggle_sidebar_keeps s h)
  run_keeps (key_down event ∷ es) s h =
      run_keeps es (handle_key_down p (context p s) event s).1 (handle_key_down_keeps event s h)
  run_keeps (sheet_changed value ∷ es) s h =
      run_keeps es (set_open_mobile value s) (slides s value h)
  run_keeps (resized width ∷ es) s h = run_keeps es (measure width s) (measures s width h)

-- The cookie holds what the sidebar is, once anything was written.
abbrev pub Recorded : Bool → SidebarState → Type 0
Recorded d s = ((s.cookie ≡ none) × (s.own_open ≡ d)) ⊎ (s.cookie ≡ some (cookie_text s.own_open))

-- Whatever happens to a sidebar that keeps its own state, its cookie holds what it is: none was written
-- and it is as it was at first, or the cookie names the present value.
pub run-initial-Recorded :
    (d : Bool) (es : List SidebarEvent)
    → Recorded d (run (uncontrolled d) es (initial (uncontrolled d)))
unfolding initial set_open measure
run-initial-Recorded d es =
    run_keeps (uncontrolled d) (Recorded d) (λ s h. inr refl) (λ s value h. h) (λ s width h. h) es
      (initial (uncontrolled d)) (inl (refl, refl))

-- Nothing was asked for and no cookie written, or the other value was, each time, and the cookie names
-- that.
abbrev pub Refused : Bool → SidebarState → Type 0
Refused value s =
    ((s.reported ≡ []) × (s.cookie ≡ none))
    ⊎ ((s.reported ≢ [])
        × All (λ asked. asked ≡ not value) s.reported
        × (s.cookie ≡ some (cookie_text (not value))))
