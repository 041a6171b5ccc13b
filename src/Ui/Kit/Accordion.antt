-- ===== src/Ui/Kit/Accordion.antt =====
-- The parts of docs/src/components/ui/accordion.tsx.
use quickspin.Prelude.{Option, some, List, [], ◌∷◌, ◌++◌}
use quickspin.Text.Units.{Text}
use quickspin.Markup.{Attr, attr, Node, elem, attribute, class_name, lit}
use quickspin.Ui.Styling.{Styling, cn}

module _ {M : Type 0} (styling : Styling) where
  unfoldable pub accordion : Option Text → List (Attr M) → List (Node M) → Node M
  unfolding cn
  accordion extra props children =
      elem "AccordionPrimitive.Root"
        (attribute "data-slot" "accordion"
          ∷ attr (lit "className") (cn styling ((some (lit "flex w-full flex-col")) ∷ extra ∷ []))
          ∷ props)
        children

  unfoldable pub accordion_item : Option Text → List (Attr M) → List (Node M) → Node M
  unfolding cn
  accordion_item extra props children =
      elem "AccordionPrimitive.Item"
        (attribute "data-slot" "accordion-item"
          ∷ attr (lit "className") (cn styling ((some (lit "not-last:border-b")) ∷ extra ∷ []))
          ∷ props)
        children

  unfoldable pub accordion_trigger : Option Text → List (Attr M) → List (Node M) → Node M
  unfolding cn
  accordion_trigger extra props children =
      elem "AccordionPrimitive.Header" (class_name "flex" ∷ []) (
        elem "AccordionPrimitive.Trigger"
          (attribute "data-slot" "accordion-trigger"
            ∷ attr (lit "className") (
                cn styling (
                  (some (
                    lit
                      "group/accordion-trigger relative flex flex-1 items-start justify-between rounded-none border border-transparent py-2.5 text-left text-xs font-medium transition-all outline-none hover:underline focus-visible:border-ring focus-visible:ring-1 focus-visible:ring-ring/50 focus-visible:after:border-ring aria-disabled:pointer-events-none aria-disabled:opacity-50 **:data-[slot=accordion-trigger-icon]:ml-auto **:data-[slot=accordion-trigger-icon]:size-4 **:data-[slot=accordion-trigger-icon]:text-muted-foreground"))
                  ∷ extra
                  ∷ []))
            ∷ props)
          (children
            ++ (elem "ChevronDownIcon"
                  (attribute "data-slot" "accordion-trigger-icon"
                    ∷ class_name
                        "pointer-events-none shrink-0 group-aria-expanded/accordion-trigger:hidden"
                    ∷ [])
                  []
                ∷ elem "ChevronUpIcon"
                    (attribute "data-slot" "accordion-trigger-icon"
                      ∷ class_name
                          "pointer-events-none hidden shrink-0 group-aria-expanded/accordion-trigger:inline"
                      ∷ [])
                    []
                ∷ []))
        ∷ [])

  unfoldable pub accordion_content : Option Text → List (Attr M) → List (Node M) → Node M
  unfolding cn
  accordion_content extra props children =
      elem "AccordionPrimitive.Panel"
        (attribute "data-slot" "accordion-content"
          ∷ class_name
              "overflow-hidden text-xs data-open:animate-accordion-down data-closed:animate-accordion-up"
          ∷ props)
        (elem "div"
            (attr (lit "className") (
                cn styling (
                  (some (
                    lit
                      "h-(--accordion-panel-height) pt-0 pb-2.5 data-ending-style:h-0 data-starting-style:h-0 [&_a]:underline [&_a]:underline-offset-3 [&_a]:hover:text-foreground [&_p:not(:last-child)]:mb-4"))
                  ∷ extra
                  ∷ []))
              ∷ [])
            children
          ∷ [])
