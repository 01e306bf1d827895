-- ===== src/Belief/Assessments/Stranding.antt =====
-- Which derivations the pass of packages/belief/src/assessments.ts reads.
use uni.Prelude.{
  Bool, true, false, not, ◌&&◌, List, [], ◌∷◌, Option, none, some, ◌≡◌, ◌↔◌, ◌⊎◌, inl, inr, refl,
  sym, arith, any, contains, contains→Has, Has→contains, Uuid, Has,
}
use mathlib.Core.Path.{subst}
use uni.Memory.Bitemporal.{Assessment}
use uni.Belief.Assessments.{
  Claim, DerivedDependency, Tables, is_invalid_claim, is_invalid_verdict, is_unsupported, carries,
  is_movable, has_live_claim, has_live_input, is_stranded, is_candidate, stranded,
  read_current_assessment,
}

-- The claim, or the proposition by its current verdict, no longer carries what it asserted.
abbrev pub AllInvalidated : Tables → DerivedDependency → Type 0
AllInvalidated t d =
    ((c : Claim)
      → Has c t.claims
      → Has c.id d.input_claim_ids
      → is_invalid_claim c.lifecycle ≡ true)
    × ((q : Uuid)
        → Has q t.propositions
        → Has q d.input_proposition_ids
        → (a : Assessment) × (read_current_assessment q t.assessments ≡ some a)
          × (is_invalid_verdict a.assessment_status ≡ true))

-- There is a verdict, and it is not yet UNSUPPORTED.
abbrev pub IsMovable : Tables → Uuid → Type 0
IsMovable t p =
    (a : Assessment) × (read_current_assessment p t.assessments ≡ some a)
    × (is_unsupported a.assessment_status ≡ false)

abbrev pub IsStranded : Tables → List Uuid → Uuid → Type 0
IsStranded t candidates p =
    (is_candidate candidates p ≡ true)
    × IsMovable t p
    × ((d : DerivedDependency) × Has d t.dependencies
        × (d.derived_proposition_id ≡ p)
        × AllInvalidated t d)

any-false :
    {A : Type 0} (f : A → Bool) (xs : List A)
    → (any f xs ≡ false) ↔ ((x : A) → Has x xs → f x ≡ false)
any-false f [] = (λ e x h. absurd h, λ h. refl)
any-false f (x ∷ xs) =
    let (to, from) = any-false f xs in
    (
      λ e y h. elim h [ inl s ↦ rw s (ground arith) | inr k ↦ to (ground arith) y k ],
      λ h. let head = h x (inl refl) in let tail = from (λ y k. h y (inr k)) in ground arith,
    )

dead_input :
    (inputs : List Uuid) (x : Uuid) (b : Bool)
    → ((contains inputs x && not b) ≡ false) ↔ (Has x inputs → b ≡ true)
dead_input inputs x b =
    (λ e h. ground (arith, Has→contains inputs x h), λ h. ground (arith, contains→Has inputs x, h))

has_live_claim_iff :
    (claims : List Claim) (inputs : List Uuid)
    → (has_live_claim claims inputs ≡ false)
      ↔ ((c : Claim) → Has c claims → Has c.id inputs → is_invalid_claim c.lifecycle ≡ true)
unfolding has_live_claim
has_live_claim_iff claims inputs =
    let (to, from) =
      any-false (λ (c : Claim). contains inputs c.id && not (is_invalid_claim c.lifecycle))
        claims in
    (
      λ e c h. (dead_input inputs c.id (is_invalid_claim c.lifecycle)).0 (to e c h),
      λ h. from (λ c k. (dead_input inputs c.id (is_invalid_claim c.lifecycle)).1 (h c k)),
    )

abbrev IsDead : Option Assessment → Type 0
IsDead o = (a : Assessment) × (o ≡ some a) × (is_invalid_verdict a.assessment_status ≡ true)

IsDead-iff : (b : Bool) (o : Option Assessment) → ((b && carries o) ≡ false) ↔ (b ≡ true → IsDead o)
IsDead-iff true none = (λ e h. cc, λ h. let (a, e, _) = h refl in cc)
IsDead-iff true (some a) =
    (λ e h. (a, refl, ground arith), λ h. let (b, e, d) = h refl in ground arith)
IsDead-iff false o = (λ e h. cc, λ h. refl)

has_live_input_iff :
    (propositions : List Uuid) (assessments : List Assessment) (inputs : List Uuid)
    → (has_live_input propositions assessments inputs ≡ false) ↔ (
        (q : Uuid)
        → Has q propositions
        → Has q inputs
        → IsDead (read_current_assessment q assessments))
unfolding has_live_input
has_live_input_iff propositions assessments inputs =
    let current = λ (q : Uuid). read_current_assessment q assessments in
    let (to, from) = any-false (λ q. contains inputs q && carries (current q)) propositions in
    (
      λ e q h k.
          (IsDead-iff (contains inputs q) (current q)).0 (to e q h) (Has→contains inputs q k),
      λ h. from (λ q k.
          (IsDead-iff (contains inputs q) (current q)).1 (λ c. h q k (contains→Has inputs q c))),
    )

movable_iff :
    (o : Option Assessment)
    → (is_movable o ≡ true)
      ↔ ((a : Assessment) × (o ≡ some a) × (is_unsupported a.assessment_status ≡ false))
movable_iff none = (λ e. cc, λ h. let (a, e, _) = h in cc)
movable_iff (some a) = (λ e. (a, refl, ground arith), λ h. let (b, e, u) = h in ground arith)

is_stranded_iff :
    (t : Tables) (d : DerivedDependency)
    → (is_stranded t d ≡ true) ↔ (AllInvalidated t d × IsMovable t d.derived_proposition_id)
unfolding is_stranded
is_stranded_iff t d =
    let (c_to, c_from) = has_live_claim_iff t.claims d.input_claim_ids in
    let (i_to, i_from) = has_live_input_iff t.propositions t.assessments d.input_proposition_ids in
    let (m_to, m_from) =
      movable_iff (read_current_assessment d.derived_proposition_id t.assessments) in
    (
      λ e. ((c_to (ground arith), i_to (ground arith)), m_to (ground arith)),
      λ h. let c = c_from h.0.0 in let i = i_from h.0.1 in let m = m_from h.1 in ground arith,
    )

abbrev Stands : Tables → List Uuid → List DerivedDependency → Uuid → Type 0
Stands t candidates ds p =
    (d : DerivedDependency) × Has d ds
    × (d.derived_proposition_id ≡ p)
    × (is_candidate candidates p ≡ true)
    × (is_stranded t d ≡ true)

stranded_split :
    (t : Tables) (candidates : List Uuid) (d : DerivedDependency) (ds : List DerivedDependency)
    (p : Uuid)
    → Has p (stranded t candidates (d ∷ ds))
    → ((p ≡ d.derived_proposition_id)
        × (is_candidate candidates d.derived_proposition_id ≡ true)
        × (is_stranded t d ≡ true))
      ⊎ Has p (stranded t candidates ds)
unfolding stranded
stranded_split t candidates d ds p h = ground arith

-- The rows that are read, each once.
stranded_sound :
    (t : Tables) (candidates : List Uuid) (ds : List DerivedDependency) (p : Uuid)
    → Has p (stranded t candidates ds)
    → Stands t candidates ds p
stranded_sound t candidates [] p h = absurd (unfold stranded in h)
stranded_sound t candidates (d ∷ ds) p h = elim (stranded_split t candidates d ds p h) [
  | inl (q, c, s) ↦ (d, inl refl, sym q, subst (λ z. is_candidate candidates z ≡ true) (sym q) c, s)
  | inr k ↦ let (e, there, q, c, s) = stranded_sound t candidates ds p k in (e, inr there, q, c, s)
]

stranded_head :
    (t : Tables) (candidates : List Uuid) (d : DerivedDependency) (ds : List DerivedDependency)
    → is_candidate candidates d.derived_proposition_id ≡ true
    → is_stranded t d ≡ true
    → Has d.derived_proposition_id (stranded t candidates (d ∷ ds))
unfolding stranded
stranded_head t candidates d ds c s =
    ground (arith, contains→Has (stranded t candidates ds) d.derived_proposition_id)

stranded_complete :
    (t : Tables) (candidates : List Uuid) (ds : List DerivedDependency) (d : DerivedDependency)
    → Has d ds
    → is_candidate candidates d.derived_proposition_id ≡ true
    → is_stranded t d ≡ true
    → Has d.derived_proposition_id (stranded t candidates ds)
unfolding stranded
stranded_complete t candidates [] d h c s = absurd h
stranded_complete t candidates (e ∷ ds) d (inl q) c s =
    subst (λ z. Has z.derived_proposition_id (stranded t candidates (e ∷ ds))) (sym q)
      (stranded_head t candidates e ds
        (subst (λ z. is_candidate candidates z.derived_proposition_id ≡ true) q c)
        (subst (λ z. is_stranded t z ≡ true) q s))
stranded_complete t candidates (e ∷ ds) d (inr h) c s =
    let ih = stranded_complete t candidates ds d h c s in ground arith

pub IsStranded-iff :
    (t : Tables) (candidates : List Uuid) (p : Uuid)
    → Has p (stranded t candidates t.dependencies) ↔ IsStranded t candidates p
IsStranded-iff t candidates p = (
  λ h.
      let (d, there, e, c, s) = stranded_sound t candidates t.dependencies p h in
      let (dead, movable) = (is_stranded_iff t d).0 s in
      (c, subst (IsMovable t) e movable, (d, there, e, dead)),
  λ (c, movable, (d, there, e, dead)).
      subst (λ z. Has z (stranded t candidates t.dependencies)) e
        (stranded_complete t candidates t.dependencies d there
          (subst (λ z. is_candidate candidates z ≡ true) (sym e) c)
          ((is_stranded_iff t d).1 (dead, subst (IsMovable t) (sym e) movable))),
)
