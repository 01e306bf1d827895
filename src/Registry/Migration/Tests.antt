-- ===== src/Registry/Migration/Tests.antt =====
-- Inputs for packages/registry/src/migration.ts: a release that drops a frame.
use uni.Prelude.{[], ◌∷◌, none, some, ◌≡◌, ◌↔◌}
use uni.Registry.Migration.{Frame, Release, ChangeClass, classify_registry_change}
use uni.Registry.Migration.Classes.{IsWorst, classify_registry_change-IsWorst}

abbrev frame : Frame
frame = record { id = 1; field = λ f. 0; transition_contracts = 0; roles = []; predicates = [] }

abbrev before : Release
before = record { frames = frame ∷ []; transitions = [] }

abbrev after : Release
after = record { frames = record frame { id = 2 } ∷ []; transitions = [] }

classify_registry_change-IsWorst_example :
    (((classify_registry_change before after).change_class ≡ none)
      ↔ ((classify_registry_change before after).changes ≡ []))
    × ((w : ChangeClass)
        → (classify_registry_change before after).change_class ≡ some w
        → IsWorst w (classify_registry_change before after).changes)
classify_registry_change-IsWorst_example = classify_registry_change-IsWorst before after
