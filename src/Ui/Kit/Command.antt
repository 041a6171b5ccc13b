-- ===== src/Ui/Kit/Command.antt =====
-- The parts of docs/src/components/ui/command.tsx.
use quickspin.Prelude.{Bool, false, Option, some, List, [], ◌∷◌, ◌++◌, get_or}
use quickspin.Text.Units.{Text}
use quickspin.Markup.{Attr, attr, Node, elem, attribute, class_name, flag, lit, text}
use quickspin.Ui.Styling.{Styling, cn}

module _ {M : Type 0} (styling : Styling) where
  unfoldable pub command : Option Text → List (Attr M) → List (Node M) → Node M
  unfolding cn
  command extra props children =
      elem "CommandPrimitive"
        (attribute "data-slot" "command"
          ∷ attr (lit "className") (
              cn styling (
                (some (
                  lit
                    "flex size-full flex-col overflow-hidden rounded-none bg-popover text-popover-foreground"))
                ∷ extra
                ∷ []))
          ∷ props)
        children

  unfoldable pub command_dialog :
      Option Text → Option Text → Option Text → Option Bool → List (Attr M) → List (Node M) → Node M
  unfolding cn
  command_dialog title description extra show_close_button props children = elem "Dialog" props (
      elem "DialogHeader" (class_name "sr-only" ∷ []) (
        elem "DialogTitle" [] (text (get_or title (lit "Command Palette")) ∷ [])
        ∷ elem "DialogDescription" []
            (text (get_or description (lit "Search for a command to run...")) ∷ [])
        ∷ [])
      ∷ elem "DialogContent"
          (attr (lit "className") (
              cn styling (
                (some (lit "top-1/3 translate-y-0 overflow-hidden rounded-none p-0")) ∷ extra ∷ []))
            ∷ flag (lit "showCloseButton") (get_or show_close_button false)
            ∷ [])
          children
      ∷ [])

  unfoldable pub command_input : Option Text → List (Attr M) → List (Node M) → Node M
  unfolding cn
  command_input extra props children =
      elem "div" (attribute "data-slot" "command-input-wrapper" ∷ class_name "border-b pb-0" ∷ []) (
        elem "InputGroup"
          (class_name
              "h-8 border-none border-input/30 bg-input/30 shadow-none! *:data-[slot=input-group-addon]:pl-2!"
            ∷ [])
          (elem "CommandPrimitive.Input"
              (attribute "data-slot" "command-input"
                ∷ attr (lit "className") (
                    cn styling (
                      (some (
                        lit
                          "w-full text-xs outline-hidden disabled:cursor-not-allowed disabled:opacity-50"))
                      ∷ extra
                      ∷ []))
                ∷ props)
              children
            ∷ elem "InputGroupAddon" []
                (elem "SearchIcon" (class_name "size-4 shrink-0 opacity-50" ∷ []) [] ∷ [])
            ∷ [])
        ∷ [])

  unfoldable pub command_list : Option Text → List (Attr M) → List (Node M) → Node M
  unfolding cn
  command_list extra props children =
      elem "CommandPrimitive.List"
        (attribute "data-slot" "command-list"
          ∷ attr (lit "className") (
              cn styling (
                (some (
                  lit
                    "no-scrollbar max-h-72 scroll-py-0 overflow-x-hidden overflow-y-auto outline-none"))
                ∷ extra
                ∷ []))
          ∷ props)
        children

  unfoldable pub command_empty : Option Text → List (Attr M) → List (Node M) → Node M
  unfolding cn
  command_empty extra props children =
      elem "CommandPrimitive.Empty"
        (attribute "data-slot" "command-empty"
          ∷ attr (lit "className")
              (cn styling ((some (lit "py-6 text-center text-xs")) ∷ extra ∷ []))
          ∷ props)
        children

  unfoldable pub command_group : Option Text → List (Attr M) → List (Node M) → Node M
  unfolding cn
  command_group extra props children =
      elem "CommandPrimitive.Group"
        (attribute "data-slot" "command-group"
          ∷ attr (lit "className") (
              cn styling (
                (some (
                  lit
                    "overflow-hidden text-foreground **:[[cmdk-group-heading]]:px-2 **:[[cmdk-group-heading]]:py-1.5 **:[[cmdk-group-heading]]:text-xs **:[[cmdk-group-heading]]:text-muted-foreground"))
                ∷ extra
                ∷ []))
          ∷ props)
        children

  unfoldable pub command_separator : Option Text → List (Attr M) → List (Node M) → Node M
  unfolding cn
  command_separator extra props children =
      elem "CommandPrimitive.Separator"
        (attribute "data-slot" "command-separator"
          ∷ attr (lit "className") (cn styling ((some (lit "-mx-1 h-px bg-border")) ∷ extra ∷ []))
          ∷ props)
        children

  unfoldable pub command_item : Option Text → List (Attr M) → List (Node M) → Node M
  unfolding cn
  command_item extra props children =
      elem "CommandPrimitive.Item"
        (attribute "data-slot" "command-item"
          ∷ attr (lit "className") (
              cn styling (
                (some (
                  lit
                    "group/command-item relative flex cursor-default items-center gap-2 rounded-none px-2 py-2 text-xs outline-hidden select-none in-data-[slot=dialog-content]:rounded-none! data-[disabled=true]:pointer-events-none data-[disabled=true]:opacity-50 data-selected:bg-muted data-selected:text-foreground [&_svg]:pointer-events-none [&_svg]:shrink-0 [&_svg:not([class*='size-'])]:size-4 data-selected:*:[svg]:text-foreground"))
                ∷ extra
                ∷ []))
          ∷ props)
        (children
          ++ (elem "CheckIcon"
                (class_name
                    "ml-auto opacity-0 group-has-data-[slot=command-shortcut]/command-item:hidden group-data-[checked=true]/command-item:opacity-100"
                  ∷ [])
                []
              ∷ []))

  unfoldable pub command_shortcut : Option Text → List (Attr M) → List (Node M) → Node M
  unfolding cn
  command_shortcut extra props children =
      elem "span"
        (attribute "data-slot" "command-shortcut"
          ∷ attr (lit "className") (
              cn styling (
                (some (
                  lit
                    "ml-auto text-xs tracking-widest text-muted-foreground group-data-selected/command-item:text-foreground"))
                ∷ extra
                ∷ []))
          ∷ props)
        children
