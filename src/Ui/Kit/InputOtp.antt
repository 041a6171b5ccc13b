-- ===== src/Ui/Kit/InputOtp.antt =====
-- Parts of docs/src/components/ui/input-otp.tsx; not modelled here: InputOTPSlot.
use quickspin.Prelude.{false, Option, some, List, [], ◌∷◌}
use quickspin.Text.Units.{Text}
use quickspin.Markup.{Attr, attr, Node, elem, attribute, class_name, flag, lit}
use quickspin.Ui.Styling.{Styling, cn}

module _ {M : Type 0} where
  unfoldable pub input_otp_separator : List (Attr M) → Node M
  input_otp_separator props =
      elem "div"
        (attribute "data-slot" "input-otp-separator"
          ∷ class_name "flex items-center [&_svg:not([class*='size-'])]:size-4"
          ∷ attribute "role" "separator"
          ∷ props)
        (elem "MinusIcon" [] [] ∷ [])

module _ {M : Type 0} (styling : Styling) where
  unfoldable pub input_otp : Option Text → Option Text → List (Attr M) → List (Node M) → Node M
  unfolding cn
  input_otp extra container_class_name props children =
      elem "OTPInput"
        (attribute "data-slot" "input-otp"
          ∷ attr (lit "containerClassName") (
              cn styling (
                (some (lit "cn-input-otp flex items-center has-disabled:opacity-50"))
                ∷ container_class_name
                ∷ []))
          ∷ flag (lit "spellCheck") false
          ∷ attr (lit "className")
              (cn styling ((some (lit "disabled:cursor-not-allowed")) ∷ extra ∷ []))
          ∷ props)
        children

  unfoldable pub input_otp_group : Option Text → List (Attr M) → List (Node M) → Node M
  unfolding cn
  input_otp_group extra props children =
      elem "div"
        (attribute "data-slot" "input-otp-group"
          ∷ attr (lit "className") (
              cn styling (
                (some (
                  lit
                    "flex items-center rounded-none has-aria-invalid:border-destructive has-aria-invalid:ring-1 has-aria-invalid:ring-destructive/20 dark:has-aria-invalid:ring-destructive/40"))
                ∷ extra
                ∷ []))
          ∷ props)
        children
