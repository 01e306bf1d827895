-- ===== src/Connectors/Grants/Lifecycle.antt =====
-- What can happen to a connector of packages/connectors/src/grants.ts and sync.ts, and that a
-- disconnection is final.
use uni.Prelude.{
  ℕ, Bool, false, List, [], ◌∷◌, map, Option, ◌≡◌, inl, inr, refl, sym, ap, ◌∙◌, arith, Bool-cases,
  select,
}
use mathlib.Core.Path.{subst}
use uni.Connectors.Grants.{
  Grant, Capability, disconnected, Connector, Purpose, Wish, Page, is_manage, is_sync, is_read,
  is_disconnected, is_held, revoke_grant, granted_capabilities, capability_of, disconnected_row,
  check_revoked, set_capability_grants, require_capability, mark_token_revoked,
  disconnect_connector, begin_sync, run_connector_sync, record_sync_failure,
}
use uni.Connectors.Grants.Authority.{on_success-inr, granted_as}

-- One operation on the connector.
pub data Step (c : Connector) : Connector → Type 0 where
  consents :
      {c' : Connector} (purpose : Purpose) (now : ℕ) (wishes : List Wish)
      → set_capability_grants purpose now wishes c ≡ inr c'
      → Step c c'
  revokes : {c' : Connector} (purpose : Purpose) → mark_token_revoked purpose c ≡ inr c' → Step c c'
  disconnects :
      {c' : Connector} (purpose : Purpose) (now : ℕ) (revoke : Option Bool)
      → disconnect_connector purpose now revoke c ≡ inr c'
      → Step c c'
  syncs :
      {c' : Connector} (purpose : Purpose) (backfill : Bool) (max_pages : ℕ)
      (fetch : Option ℕ → Page)
      → run_connector_sync purpose backfill max_pages fetch c ≡ inr c'
      → Step c c'
  fails :
      {c' : Connector} (purpose : Purpose) (code : ℕ)
      → record_sync_failure purpose code c ≡ inr c'
      → Step c c'

pub data Reach (c : Connector) : Connector → Type 0 where
  here : Reach c c
  next : {d e : Connector} → Reach c d → Step d e → Reach c e

mark-refused :
    (purpose : Purpose) (c : Connector) {c' : Connector}
    → c.status ≡ disconnected
    → mark_token_revoked purpose c ≡ inr c'
    → ⊥
unfolding mark_token_revoked
mark-refused purpose c h e = elim (Bool-cases (is_manage purpose)) [
  | inl m ↦ let z = rw (m, h) at e in ground arith
  | inr m ↦ let z = rw m at e in ground arith
]

disconnect-refused :
    (purpose : Purpose) (now : ℕ) (revoke : Option Bool) (c : Connector) {c' : Connector}
    → c.status ≡ disconnected
    → disconnect_connector purpose now revoke c ≡ inr c'
    → ⊥
unfolding disconnect_connector
disconnect-refused purpose now revoke c h e = elim (Bool-cases (is_manage purpose)) [
  | inl m ↦ let z = rw (m, h) at e in ground arith
  | inr m ↦ let z = rw m at e in ground arith
]

begin-refused :
    (purpose : Purpose) (c : Connector) {c' : Connector}
    → c.status ≡ disconnected
    → begin_sync purpose c ≡ inr c'
    → ⊥
unfolding begin_sync
begin-refused purpose c h e = elim (Bool-cases (is_sync purpose)) [
  | inl m ↦ let z = rw (m, h) at e in ground arith
  | inr m ↦ let z = rw m at e in ground arith
]

failure-keeps :
    (purpose : Purpose) (code : ℕ) (c : Connector) {c' : Connector}
    → c.status ≡ disconnected
    → record_sync_failure purpose code c ≡ inr c'
    → c' ≡ c
unfolding record_sync_failure
failure-keeps purpose code c h e = elim (Bool-cases (is_sync purpose)) [
  | inl m ↦ let z = rw (m, h) at e in ground arith
  | inr m ↦ let z = rw m at e in absurd (ground arith)
]

Step-disconnected_same : {c c' : Connector} → c.status ≡ disconnected → Step c c' → c' ≡ c
unfolding run_connector_sync
Step-disconnected_same {c} {c'} h (consents purpose now ws e) =
    let (open_, _) = granted_as purpose now ws c c' e in
    let z = rw h at open_ in absurd (ground arith)
Step-disconnected_same {c} {c'} h (revokes purpose e) = absurd (mark-refused purpose c h e)
Step-disconnected_same {c} {c'} h (disconnects purpose now revoke e) =
    absurd (disconnect-refused purpose now revoke c h e)
Step-disconnected_same {c} {c'} h (syncs purpose backfill max_pages fetch e) =
    let (_, begun, _) = on_success-inr (begin_sync purpose c) _ e in
    absurd (begin-refused purpose c h begun)
Step-disconnected_same {c} {c'} h (fails purpose code e) = failure-keeps purpose code c h e

Reach-disconnected_same : {c c' : Connector} → c.status ≡ disconnected → Reach c c' → c' ≡ c
Reach-disconnected_same h here = refl
Reach-disconnected_same {c} {c'} h (next {d} r s) =
    let same = Reach-disconnected_same h r in
    Step-disconnected_same (ap (λ (x : Connector). x.status) same ∙ h) s ∙ same

-- What a disconnection has made of the connector.
pub disconnected_as :
    (purpose : Purpose) (now : ℕ) (revoke : Option Bool) (c c' : Connector)
    → disconnect_connector purpose now revoke c ≡ inr c'
    → disconnected_row now c ≡ c'
unfolding disconnect_connector
disconnected_as purpose now revoke c c' e = elim (Bool-cases (is_manage purpose)) [
  | inr m ↦ let z = rw m at e in absurd (ground arith)
  | inl m ↦ elim (Bool-cases (is_disconnected c.status)) [
    | inl shut ↦ let z = rw (m, shut) at e in absurd (ground arith)
    | inr open_ ↦
        let (_, _, z) = on_success-inr (check_revoked c.secret_ref revoke) _ (rw (m, open_) at e) in
        ground arith
  ]
]

pub is_held-revoke_grant : (now : ℕ) (g : Grant) → is_held (revoke_grant now g) ≡ false
unfolding revoke_grant
is_held-revoke_grant now g = elim (Bool-cases g.granted) [ inl y ↦ rw y refl | inr n ↦ rw n refl ]

select-revoke_grant : (now : ℕ) (gs : List Grant) → select is_held (map (revoke_grant now) gs) ≡ []
select-revoke_grant now [] = refl
select-revoke_grant now (g ∷ gs) = rw (is_held-revoke_grant now g) (select-revoke_grant now gs)

granted_capabilities-disconnected :
    (now : ℕ) (c : Connector) → granted_capabilities (disconnected_row now c) ≡ []
unfolding granted_capabilities
granted_capabilities-disconnected now c =
    ap (map (λ (g : Grant). g.capability_id)) (select-revoke_grant now c.grants)

require_capability-disconnected :
    (id now : ℕ) (c : Connector) {k : Capability}
    → require_capability id (disconnected_row now c) ≡ inr k
    → ⊥
unfolding require_capability
require_capability-disconnected id now c e =
    let (k, _, z) = on_success-inr (capability_of c.manifest id) _ e in
    elim (Bool-cases (is_read k.access)) [
      | inl y ↦ let w = rw y at z in ground arith
      | inr n ↦ let w = rw n at z in ground arith
    ]

-- A disconnection is final: whatever operations follow it, the connector stays as the disconnection
-- left it, without credential, cursor and granted capability, and no capability can be exercised.
pub disconnect_connector-final :
    (purpose : Purpose) (now : ℕ) (revoke : Option Bool) (c : Connector) {c' c'' : Connector}
    → disconnect_connector purpose now revoke c ≡ inr c'
    → Reach c' c''
    → (c'' ≡ disconnected_row now c)
      × ((granted_capabilities c'' ≡ [])
          × ((id : ℕ) (k : Capability) → require_capability id c'' ≡ inr k → ⊥))
disconnect_connector-final purpose now revoke c {c'} {c''} e r =
    let is = sym (disconnected_as purpose now revoke c c' e) in
    let same = Reach-disconnected_same (ap (λ (x : Connector). x.status) is) r ∙ is in
    (
      same,
      (
        ap granted_capabilities same ∙ granted_capabilities-disconnected now c,
        λ id k q.
            require_capability-disconnected id now c
              (subst (λ x. require_capability id x ≡ inr k) same q),
      ),
    )
