-- ===== src/Connectors/Grants/Authority.antt =====
-- A consent of packages/connectors/src/grants.ts moves the capabilities that it names, and no other.
use uni.Prelude.{
  ℕ, Bool, true, false, List, [], ◌∷◌, some, ◌≡◌, ◌⊎◌, inl, inr, refl, sym, ap, ◌∙◌, arith,
  Bool-cases, if◌then◌else◌, ◌==◌, find, any, All,
}
use mathlib.Core.Path.{subst}
use uni.Connectors.Grants.{
  Grant, Status, Connector, Purpose, ConnectorError, Wish, on_success, is_manage, is_disconnected,
  check_wishes, set_grant, update, is_grant, apply_wishes, is_held, status_for, with_grants,
  set_capability_grants, is_stopped, require_capability,
}

pub on_success-inr :
    {A B : Type 0} (x : ConnectorError ⊎ A) (k : A → ConnectorError ⊎ B) {b : B}
    → on_success x k ≡ inr b
    → (a : A) × (x ≡ inr a) × (k a ≡ inr b)
on_success-inr (inl e) k h = absurd (ground arith)
on_success-inr (inr a) k h = (a, refl, h)

set_grant-id :
    (now : ℕ) (b : Bool) (g : Grant) → (set_grant now b g).capability_id ≡ g.capability_id
unfolding set_grant
set_grant-id now true g = refl
set_grant-id now false g = refl

find-update_other :
    (now id other : ℕ) (b : Bool) (gs : List Grant)
    → (id == other) ≡ false
    → find (is_grant other) (update id (set_grant now b) gs) ≡ find (is_grant other) gs
unfolding update
find-update_other now id other b [] ne = refl
find-update_other now id other b (g ∷ gs) ne =
    let rest = find-update_other now id other b gs ne in
    elim (Bool-cases (g.capability_id == id)) [
      | inl e ↦
          let was : (g.capability_id == other) ≡ false = ground arith in
          let is : ((set_grant now b g).capability_id == other) ≡ false =
            subst (λ n. (n == other) ≡ false) (sym (set_grant-id now b g)) was in
          rw e (rw is (rw was rest))
      | inr e ↦ rw e (ap (λ z. if g.capability_id == other then some g else z) rest)
    ]

-- The capability is not named.
abbrev pub IsUnnamed : ℕ → List Wish → Type 0
IsUnnamed id ws = All (λ (w : Wish). (w.capability_id == id) ≡ false) ws

apply_wishes-others :
    (now id : ℕ) (ws : List Wish) (gs gs' : List Grant)
    → IsUnnamed id ws
    → apply_wishes now ws gs ≡ inr gs'
    → find (is_grant id) gs' ≡ find (is_grant id) gs
unfolding apply_wishes
apply_wishes-others now id [] gs gs' h e =
    let q : gs ≡ gs' = ground arith in ap (find (is_grant id)) (sym q)
apply_wishes-others now id (w ∷ ws) gs gs' (p, h) e =
    elim (Bool-cases (any (is_grant w.capability_id) gs)) [
      | inr absent ↦ absurd (ground arith)
      | inl there ↦
          apply_wishes-others now id ws (update w.capability_id (set_grant now w.granted) gs) gs' h
            (rw there at e)
          ∙ find-update_other now w.capability_id id w.granted gs p
    ]

status_for-stopped : (s : Status) (b : Bool) → is_stopped (status_for s b) ≡ is_stopped s
unfolding status_for
status_for-stopped s b = ground arith

-- What a consent has made of the grants.
pub granted_as :
    (purpose : Purpose) (now : ℕ) (ws : List Wish) (c c' : Connector)
    → set_capability_grants purpose now ws c ≡ inr c'
    → (is_disconnected c.status ≡ false)
      × ((gs : List Grant) × (apply_wishes now ws c.grants ≡ inr gs) × (with_grants c gs ≡ c'))
unfolding set_capability_grants
granted_as purpose now ws c c' e = elim (Bool-cases (is_manage purpose)) [
  | inr other ↦ absurd (ground arith)
  | inl mine ↦ elim (Bool-cases (is_disconnected c.status)) [
    | inl shut ↦ absurd (ground arith)
    | inr open_ ↦
        let (_, _, e1) = on_success-inr (check_wishes c.manifest ws) _ (rw (mine, open_) at e) in
        let (gs, applied, e2) = on_success-inr (apply_wishes now ws c.grants) _ e1 in
        (open_, (gs, applied, ground arith))
  ]
]

-- A consent that does not name a capability leaves its authority as it was: an operation that requires
-- it goes through afterwards exactly if it did before, and is refused for the same reason.
pub set_capability_grants-others :
    (purpose : Purpose) (now : ℕ) (ws : List Wish) (id : ℕ) (c : Connector) {c' : Connector}
    → set_capability_grants purpose now ws c ≡ inr c'
    → IsUnnamed id ws
    → require_capability id c' ≡ require_capability id c
unfolding require_capability
set_capability_grants-others purpose now ws id c {c'} e h =
    let (_, (gs, applied, is)) = granted_as purpose now ws c c' e in
    let same = apply_wishes-others now id ws c.grants gs h applied in
    let stopped = status_for-stopped c.status (any is_held gs) in
    subst (λ x. require_capability id x ≡ require_capability id c) is (rw (same, stopped) refl)
