-- ===== src/Ui/Sidebar.antt =====
-- The state of the sidebar of docs/src/components/ui/sidebar.tsx (`SidebarProvider`) and of
-- docs/src/hooks/use-mobile.ts. A handler closes over the values of the last render.
pub mod Toggling
pub mod Frame
pub mod Parts
pub mod Menu
use quickspin.Text.{text_eq, decimal}
use quickspin.Text.Units.{Text, codes}
use quickspin.Prelude.{
  ℕ, ◌*◌, ◌⊎◌, inl, inr, Bool, true, false, not, ◌&&◌, ◌||◌, Option, none, some, List, [], ◌∷◌,
  ◌++◌, ltb, if◌then◌else◌, get_or,
}

abbrev pub sidebar_cookie_name : Text
sidebar_cookie_name = codes "sidebar_state"

abbrev pub sidebar_cookie_max_age : ℕ
sidebar_cookie_max_age = 60 * 60 * 24 * 7

abbrev pub sidebar_keyboard_shortcut : Text
sidebar_keyboard_shortcut = codes "b"

abbrev pub mobile_breakpoint : ℕ
mobile_breakpoint = 768

-- `open` and `onOpenChange` of the properties: the value from outside, and whether there is a
-- function that is told of changes.
pub record ProviderProps : Type 0 where
  pub default_open : Bool
  pub open_prop : Option Bool
  pub has_set_open_prop : Bool

-- The state, the calls of `onOpenChange` so far, the latest first, and the cookie.
pub record SidebarState : Type 0 where
  pub is_mobile_state : Option Bool
  pub open_mobile : Bool
  pub own_open : Bool
  pub reported : List Bool
  pub cookie : Option Text

-- `useIsMobile`: not known before the first effect, which reads the width of the window.
unfoldable pub is_mobile : Option Bool → Bool
is_mobile known = get_or known false

unfoldable pub measure : ℕ → SidebarState → SidebarState
measure inner_width s = record s { is_mobile_state = some (ltb inner_width mobile_breakpoint) }

unfoldable pub initial : ProviderProps → SidebarState
initial p = record {
  is_mobile_state = none;
  open_mobile = false;
  own_open = p.default_open;
  reported = [];
  cookie = none;
}

-- What a render of the provider puts into the context.
pub record SidebarContext : Type 0 where
  pub state : Text
  pub is_open : Bool
  pub mobile : Bool
  pub mobile_open : Bool

unfoldable pub context : ProviderProps → SidebarState → SidebarContext
context p s =
    let open' = get_or p.open_prop s.own_open in
    record {
      state = if open' then codes "expanded" else codes "collapsed";
      is_open = open';
      mobile = is_mobile s.is_mobile_state;
      mobile_open = s.open_mobile;
    }

-- `useSidebar` throws outside of a provider.
pub data MissingProvider : Type 0 where
  missing_provider : Text → MissingProvider

unfoldable pub use_sidebar : Option SidebarContext → MissingProvider ⊎ SidebarContext
use_sidebar none =
    inl (missing_provider (codes "useSidebar must be used within a SidebarProvider."))
use_sidebar (some c) = inr c

abbrev bool_text : Bool → Text
bool_text true = codes "true"
bool_text false = codes "false"

unfoldable pub cookie_text : Bool → Text
cookie_text open_state =
    sidebar_cookie_name
    ++ codes "="
    ++ bool_text open_state
    ++ codes "; path=/; max-age="
    ++ decimal sidebar_cookie_max_age

-- `setOpen` takes a value or a function of the value that the render had.
unfoldable pub set_open :
    ProviderProps → SidebarContext → (Bool → Bool) → SidebarState → SidebarState
set_open p rendered value s =
    let open_state = value rendered.is_open in
    record s {
      own_open = if p.has_set_open_prop then s.own_open else open_state;
      reported = if p.has_set_open_prop then open_state ∷ s.reported else s.reported;
      cookie = some (cookie_text open_state);
    }

abbrev pub set_open_mobile : Bool → SidebarState → SidebarState
set_open_mobile value s = record s { open_mobile = value }

-- On a small screen the sheet is toggled by its state, else the sidebar by what was rendered.
unfoldable pub toggle_sidebar : ProviderProps → SidebarContext → SidebarState → SidebarState
toggle_sidebar p rendered s =
    if rendered.mobile then set_open_mobile (not s.open_mobile) s else set_open p rendered not s

pub record KeyEvent : Type 0 where
  pub key : Text
  pub meta_key : Bool
  pub ctrl_key : Bool

-- `handleKeyDown`, and whether it prevents the browser's own action.
unfoldable pub handle_key_down :
    ProviderProps → SidebarContext → KeyEvent → SidebarState → Bool × SidebarState
handle_key_down p rendered event s =
    if text_eq event.key sidebar_keyboard_shortcut && (event.meta_key || event.ctrl_key)
    then (true, toggle_sidebar p rendered s)
    else (false, s)

-- What happens to the sidebar: the trigger, the rail or a key, the sheet opens or closes by itself,
-- and the window's width changes.
pub data SidebarEvent : Type 0 where
  toggled : SidebarEvent
  key_down : KeyEvent → SidebarEvent
  sheet_changed : Bool → SidebarEvent
  resized : ℕ → SidebarEvent

-- Each event is handled by the handlers of the render before it.
unfoldable pub step : ProviderProps → SidebarEvent → SidebarState → SidebarState
step p toggled s = toggle_sidebar p (context p s) s
step p (key_down event) s = let (_, s') = handle_key_down p (context p s) event s in s'
step p (sheet_changed open') s = set_open_mobile open' s
step p (resized inner_width) s = measure inner_width s

unfoldable pub run : ProviderProps → List SidebarEvent → SidebarState → SidebarState
run p [] s = s
run p (e ∷ es) s = run p es (step p e s)
