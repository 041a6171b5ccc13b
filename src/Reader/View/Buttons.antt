-- ===== src/Reader/View/Buttons.antt =====
-- The messages that the buttons of the sidebar send.
use quickspin.Prelude.{
  ℕ, suc, ◌≡◌, refl, ◌∙◌, inl, inr, true, false, List, [], ◌∷◌, ◌++◌, append-nil, arith, ltb, ◌==◌,
  if◌then◌else◌, Bool-cases, length,
}
use mathlib.Core.Path.{ap₂}
use quickspin.Markup.{nodes}
use quickspin.Markup.Queries.{messages, messages_of}
use quickspin.Documents.Catalog.{ReaderDocument}
use quickspin.Reader.State.{Event, nav_item, home, close_menu, toggle_collapsed}
use quickspin.Reader.View.Sidebar.{
  SidebarProps, nav_entry, nav_entries, navigation, brand, collapse_button, search_field, sidebar,
}

-- The messages of the entries from an index on.
abbrev pub entry_messages : ℕ → List ReaderDocument → List Event
entry_messages i [] = []
entry_messages i (d ∷ ds) = nav_item i ∷ entry_messages (suc i) ds

nav_entry-messages :
    (p : SidebarProps) (i : ℕ) (d : ReaderDocument) → messages (nav_entry p i d) ≡ nav_item i ∷ []
unfolding nav_entry messages
nav_entry-messages p i d = ground arith

nav_entries-messages :
    (p : SidebarProps) (i : ℕ) (ds : List ReaderDocument)
    → messages_of (nodes (nav_entries p i ds)) ≡ entry_messages i ds
unfolding nav_entries messages_of
nav_entries-messages p i [] = refl
nav_entries-messages p i (d ∷ ds) =
    ap₂ ◌++◌ (nav_entry-messages p i d) (nav_entries-messages p (suc i) ds)

ltb_zero_suc : (n : ℕ) → ltb 0 (suc n) ≡ true
ltb_zero_suc n = ground arith

suc_ne_zero : (n : ℕ) → (suc n == 0) ≡ false
suc_ne_zero n = ground arith

navigation-messages :
    (p : SidebarProps) (found : List ReaderDocument)
    → messages (navigation p found) ≡ entry_messages 0 found
unfolding navigation messages
navigation-messages p [] = refl
navigation-messages p (d ∷ ds) =
    rw (ltb_zero_suc (length ds), suc_ne_zero (length ds), navigation)
      (append-nil (messages_of (nodes (nav_entries p 0 (d ∷ ds))))
        ∙ nav_entries-messages p 0 (d ∷ ds))

brand-messages : (p : SidebarProps) → messages (brand p) ≡ home ∷ close_menu ∷ []
unfolding brand messages
brand-messages p = ground arith

search_field-messages : (p : SidebarProps) → messages (search_field p) ≡ []
unfolding search_field messages
search_field-messages p = refl

collapse_button-messages : (p : SidebarProps) → messages (collapse_button p) ≡ toggle_collapsed ∷ []
unfolding collapse_button messages
collapse_button-messages p = refl

-- The messages of the sidebar's buttons in the order of the page: the scrim, the mark, the cross, the
-- button that folds the sidebar unless reader mode locks it, and the entries.
pub sidebar-messages :
    (p : SidebarProps) (found : List ReaderDocument)
    → messages_of (nodes (sidebar p found))
      ≡ close_menu ∷ home ∷ close_menu ∷ (if p.collapse_locked then [] else toggle_collapsed ∷ [])
        ++ entry_messages 0 found
unfolding sidebar messages
sidebar-messages p found = elim (Bool-cases p.collapse_locked) [
  | inl k ↦ simp (k, brand-messages, search_field-messages, navigation-messages, append-nil)
  | inr k ↦ simp (
    k, brand-messages, search_field-messages, collapse_button-messages, navigation-messages,
    append-nil,
  )
]
