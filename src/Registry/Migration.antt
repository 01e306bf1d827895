-- ===== src/Registry/Migration.antt =====
-- packages/registry/src/migration.ts: the change class of one release against the release before.
-- A field's value is the code of its canonical text, which `same` compares. The identifiers of a
-- release's contracts are distinct, so that a `Map` of them is the list of them.
pub mod Classes
mod Tests
use uni.Prelude.{
  ℕ, Bool, true, false, not, List, [], ◌∷◌, ◌++◌, Option, none, some, if◌then◌else◌, ltb, ◌==◌,
  find,
}

pub data ChangeClass : Type 0 where
  additive compatible_behavioral identity_affecting transition_affecting breaking : ChangeClass

pub data FrameField : Type 0 where
  context_policy identity_strategy identity_anchors allowed_modalities slot_qualifiers : FrameField
  merge_policy split_policy description authority_rules projection_consumers : FrameField
  invariants acceptance_tests : FrameField

pub data PredicateField : Type 0 where
  frame_type cardinality normalization allowed_modalities slot_qualifiers description :
      PredicateField
  required temporal_behavior conflict_behavior supersession_behavior : PredicateField
  source_authority_policy projection_contracts aging_policy : PredicateField

pub data TransitionField : Type 0 where
  link_kind source_frame_types target_frame_types target_required allowed_outcomes : TransitionField
  description authority_rules invariants acceptance_tests : TransitionField

pub data RolePart : Type 0 where
  value_type required description : RolePart

-- The path of a change inside its contract.
pub data ChangePath : Type 0 where
  whole transition_contracts : ChangePath
  frame_field : FrameField → ChangePath
  role : ℕ → ChangePath
  role_part : ℕ → RolePart → ChangePath
  predicate : ℕ → ChangePath
  predicate_value_type : ℕ → ChangePath
  predicate_field : ℕ → PredicateField → ChangePath
  transition_field : TransitionField → ChangePath

pub data Code : Type 0 where
  frame_removed frame_added frame_field_changed transition_removed transition_added : Code
  transition_field_changed role_removed role_changed role_added : Code
  predicate_removed predicate_field_changed predicate_added : Code

pub record RegistryChange : Type 0 where
  pub code : Code
  pub contract : ℕ
  pub path : ChangePath
  pub change_class : ChangeClass

pub record Role : Type 0 where
  pub id : ℕ
  pub value_type : ℕ
  pub is_required : Bool
  pub description : ℕ

pub record Predicate : Type 0 where
  pub id : ℕ
  pub value_type : ℕ
  pub field : PredicateField → ℕ

pub record Frame : Type 0 where
  pub id : ℕ
  pub field : FrameField → ℕ
  pub transition_contracts : ℕ
  pub roles : List Role
  pub predicates : List Predicate

pub record Transition : Type 0 where
  pub id : ℕ
  pub field : TransitionField → ℕ

pub record Release : Type 0 where
  pub frames : List Frame
  pub transitions : List Transition

pub rank : ChangeClass → ℕ
rank additive = 0
rank compatible_behavioral = 1
rank identity_affecting = 2
rank transition_affecting = 3
rank breaking = 4

abbrev pub frame_identity_fields : List FrameField
frame_identity_fields =
    FrameField.context_policy ∷ FrameField.identity_strategy ∷ FrameField.identity_anchors
    ∷ FrameField.allowed_modalities ∷ FrameField.slot_qualifiers ∷ FrameField.merge_policy
    ∷ FrameField.split_policy ∷ []

abbrev pub frame_behavior_fields : List FrameField
frame_behavior_fields =
    FrameField.description ∷ FrameField.authority_rules ∷ FrameField.projection_consumers
    ∷ FrameField.invariants ∷ FrameField.acceptance_tests ∷ []

abbrev pub predicate_identity_fields : List PredicateField
predicate_identity_fields =
    PredicateField.frame_type ∷ PredicateField.cardinality ∷ PredicateField.normalization
    ∷ PredicateField.allowed_modalities ∷ PredicateField.slot_qualifiers ∷ []

abbrev pub predicate_behavior_fields : List PredicateField
predicate_behavior_fields =
    PredicateField.description ∷ PredicateField.required ∷ PredicateField.temporal_behavior
    ∷ PredicateField.conflict_behavior ∷ PredicateField.supersession_behavior
    ∷ PredicateField.source_authority_policy ∷ PredicateField.projection_contracts
    ∷ PredicateField.aging_policy ∷ []

abbrev pub transition_fields : List TransitionField
transition_fields =
    TransitionField.link_kind ∷ TransitionField.source_frame_types
    ∷ TransitionField.target_frame_types ∷ TransitionField.target_required
    ∷ TransitionField.allowed_outcomes ∷ []

abbrev pub transition_behavior_fields : List TransitionField
transition_behavior_fields =
    TransitionField.description ∷ TransitionField.authority_rules ∷ TransitionField.invariants
    ∷ TransitionField.acceptance_tests ∷ []

abbrev pub add : Code → ℕ → ChangePath → ChangeClass → RegistryChange
add code contract path c = record {
  code = code;
  contract = contract;
  path = path;
  change_class = c;
}

abbrev pub when {ℓ} : {A : Type ℓ} → Bool → A → List A
when b x = if b then x ∷ [] else []

pub compare_fields :
    {F : Type 0}
    → (F → ℕ)
    → (F → ℕ)
    → List F
    → ChangeClass
    → Code
    → ℕ
    → (F → ChangePath)
    → List RegistryChange
compare_fields previous next [] c code contract path = []
compare_fields previous next (f ∷ fields) c code contract path =
    let rest = compare_fields previous next fields c code contract path in
    if previous f == next f then rest else add code contract (path f) c ∷ rest

abbrev pub role_of : ℕ → List Role → Option Role
role_of id roles = find (λ (r : Role). r.id == id) roles

abbrev pub predicate_of : ℕ → List Predicate → Option Predicate
predicate_of id predicates = find (λ (p : Predicate). p.id == id) predicates

abbrev pub frame_of : ℕ → List Frame → Option Frame
frame_of id frames = find (λ (f : Frame). f.id == id) frames

abbrev pub transition_of : ℕ → List Transition → Option Transition
transition_of id transitions = find (λ (t : Transition). t.id == id) transitions

abbrev pub bool_eq : Bool → Bool → Bool
bool_eq true b = b
bool_eq false b = not b

pub compare_role : ℕ → Role → Option Role → List RegistryChange
compare_role contract old none = add role_removed contract (role old.id) breaking ∷ []
compare_role contract old (some new) =
    if not (new.value_type == old.value_type)
    then add role_changed contract (role_part old.id RolePart.value_type) breaking ∷ []
    else if not (bool_eq new.is_required old.is_required)
    then add role_changed contract (role_part old.id RolePart.required) identity_affecting ∷ []
    else when (not (new.description == old.description))
        (add role_changed contract (role_part old.id RolePart.description) compatible_behavioral)

pub compare_roles : ℕ → List Role → List Role → List RegistryChange
compare_roles contract [] next = []
compare_roles contract (r ∷ roles) next =
    compare_role contract r (role_of r.id next) ++ compare_roles contract roles next

abbrev pub is_none {ℓ} : {A : Type ℓ} → Option A → Bool
is_none none = true
is_none (some x) = false

pub added_roles : ℕ → List Role → List Role → List RegistryChange
added_roles contract previous [] = []
added_roles contract previous (r ∷ roles) =
    when (is_none (role_of r.id previous))
      (add role_added contract (role r.id) (if r.is_required then identity_affecting else additive))
    ++ added_roles contract previous roles

pub compare_predicate : ℕ → Predicate → Option Predicate → List RegistryChange
compare_predicate contract old none =
    add predicate_removed contract (predicate old.id) breaking ∷ []
compare_predicate contract old (some new) =
    when (not (new.value_type == old.value_type))
      (add predicate_field_changed contract (predicate_value_type old.id) breaking)
    ++ (compare_fields old.field new.field predicate_identity_fields identity_affecting
          predicate_field_changed contract (predicate_field old.id)
        ++ compare_fields old.field new.field predicate_behavior_fields compatible_behavioral
            predicate_field_changed contract (predicate_field old.id))

pub compare_predicates : ℕ → List Predicate → List Predicate → List RegistryChange
compare_predicates contract [] next = []
compare_predicates contract (p ∷ predicates) next =
    compare_predicate contract p (predicate_of p.id next)
    ++ compare_predicates contract predicates next

pub added_predicates : ℕ → List Predicate → List Predicate → List RegistryChange
added_predicates contract previous [] = []
added_predicates contract previous (p ∷ predicates) =
    when (is_none (predicate_of p.id previous))
      (add predicate_added contract (predicate p.id) additive)
    ++ added_predicates contract previous predicates

pub compare_frame : Frame → Frame → List RegistryChange
compare_frame previous frame =
    compare_fields previous.field frame.field frame_identity_fields identity_affecting
      frame_field_changed frame.id frame_field
    ++ (compare_fields previous.field frame.field frame_behavior_fields compatible_behavioral
          frame_field_changed frame.id frame_field
        ++ (when (not (previous.transition_contracts == frame.transition_contracts))
              (add frame_field_changed frame.id transition_contracts transition_affecting)
            ++ (compare_roles frame.id previous.roles frame.roles
                ++ (added_roles frame.id previous.roles frame.roles
                    ++ (compare_predicates frame.id previous.predicates frame.predicates
                        ++ added_predicates frame.id previous.predicates frame.predicates)))))

pub removed_frames : List Frame → List Frame → List RegistryChange
removed_frames [] after = []
removed_frames (f ∷ before) after =
    when (is_none (frame_of f.id after)) (add frame_removed f.id whole breaking)
    ++ removed_frames before after

abbrev pub against_frame : Option Frame → Frame → List RegistryChange
against_frame none frame = add frame_added frame.id whole additive ∷ []
against_frame (some previous) frame = compare_frame previous frame

pub kept_frames : List Frame → List Frame → List RegistryChange
kept_frames before [] = []
kept_frames before (f ∷ after) = against_frame (frame_of f.id before) f ++ kept_frames before after

pub removed_transitions : List Transition → List Transition → List RegistryChange
removed_transitions [] later = []
removed_transitions (t ∷ earlier) later =
    when (is_none (transition_of t.id later)) (add transition_removed t.id whole breaking)
    ++ removed_transitions earlier later

abbrev pub against_transition : Option Transition → Transition → List RegistryChange
against_transition none t = add transition_added t.id whole additive ∷ []
against_transition (some previous) t =
    compare_fields previous.field t.field transition_fields transition_affecting
      transition_field_changed t.id transition_field
    ++ compare_fields previous.field t.field transition_behavior_fields compatible_behavioral
        transition_field_changed t.id transition_field

pub kept_transitions : List Transition → List Transition → List RegistryChange
kept_transitions earlier [] = []
kept_transitions earlier (t ∷ later) =
    against_transition (transition_of t.id earlier) t ++ kept_transitions earlier later

pub registry_changes : Release → Release → List RegistryChange
registry_changes from to =
    removed_frames from.frames to.frames
    ++ (kept_frames from.frames to.frames
        ++ (removed_transitions from.transitions to.transitions
            ++ kept_transitions from.transitions to.transitions))

abbrev pub worse : Option ChangeClass → ChangeClass → ChangeClass
worse none c = c
worse (some worst) c = if ltb (rank worst) (rank c) then c else worst

-- `changes.reduce(…, worst)`
pub worst_of : Option ChangeClass → List RegistryChange → Option ChangeClass
worst_of worst [] = worst
worst_of worst (c ∷ changes) = worst_of (some (worse worst c.change_class)) changes

pub record RegistryChangeSet : Type 0 where
  pub change_class : Option ChangeClass
  pub changes : List RegistryChange

pub classify_registry_change : Release → Release → RegistryChangeSet
classify_registry_change from to =
    let changes = registry_changes from to in
    record { change_class = worst_of none changes; changes = changes }
