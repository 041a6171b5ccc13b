-- ===== src/Ui/FieldError/Tests.antt =====
-- The theorem on a field's errors at concrete inputs.
use quickspin.Text.Units.{codes}
use quickspin.Prelude.{◌↔◌, Option, none, some, List, [], ◌∷◌, In}
use quickspin.Ui.FieldError.{FieldIssue, unique_errors}
use quickspin.Ui.FieldError.Unique.{keys, IsDistinct, unique_errors_lem}

abbrev required : Option FieldIssue
required = some (record { message = some (codes "Required") })

abbrev errors : List (Option FieldIssue)
errors = required ∷ none ∷ required ∷ []

unique_errors_lem_example :
    IsDistinct (keys (unique_errors errors))
    × (In (some (codes "Required")) (keys (unique_errors errors))
        ↔ In (some (codes "Required")) (keys errors))
unique_errors_lem_example = unique_errors_lem errors (some (codes "Required"))
