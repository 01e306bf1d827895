-- ===== src/Connectors/Grants/Constraints.antt =====
-- The constraints that migrations/0018_connector_capabilities_and_lifecycle.sql puts on a connector and
-- its grants, and that every operation of packages/connectors/src/grants.ts and sync.ts keeps them.
use uni.Prelude.{
  ℕ, Bool, true, false, not, ◌&&◌, ◌||◌, ◌==◌, List, [], ◌∷◌, map, Option, none, some, ◌≡◌, ◌⊎◌,
  inl, inr, refl, arith, Bool-cases, if◌then◌else◌, any, All,
}
use mathlib.Core.Path.{subst}
use uni.Connectors.Grants.{
  Grant, Status, pending_authorization, active, sync_failed, token_revoked, disconnected, Connector,
  Purpose, ConnectorError, Wish, Page, is_manage, is_sync, is_read, is_active, is_failed,
  is_disconnected, is_held, is_null, set_grant, update, is_grant, apply_wishes, status_for,
  revoke_grant, set_capability_grants, mark_token_revoked, disconnect_connector, begin_sync,
  fetch_pages, store_cursor, run_connector_sync, record_sync_failure,
}
use uni.Connectors.Grants.Authority.{on_success-inr, granted_as}
use uni.Connectors.Grants.Lifecycle.{
  Step, consents, revokes, disconnects, syncs, fails, Reach, here, next, disconnected_as,
  is_held-revoke_grant,
}

-- A grant is for reading. It is granted with the instant of the grant, or was never granted, or was
-- granted and has since been revoked.
unfoldable pub is_sound_grant : Grant → Bool
is_sound_grant g =
    is_read g.access
    && (if g.granted
        then not (is_null g.granted_at) && is_null g.revoked_at
        else (if is_null g.granted_at then is_null g.revoked_at else not (is_null g.revoked_at)))

-- The status agrees with whether a capability is held, a credential is missing, and the connector has
-- never been disconnected.
unfoldable pub is_sound_status : Status → Bool → Bool → Bool → Bool
is_sound_status pending_authorization held bare never = not held && never
is_sound_status active held bare never = held && never
is_sound_status sync_failed held bare never = never
is_sound_status token_revoked held bare never = bare && never
is_sound_status disconnected held bare never = not held && bare && not never

abbrev pub IsConnector : Connector → Type 0
IsConnector c =
    All (λ g. is_sound_grant g ≡ true) c.grants
    × (is_sound_status c.status (any is_held c.grants) (is_null c.secret_ref)
          (is_null c.disconnected_at)
        ≡ true)

is_sound_grant-set_grant :
    (now : ℕ) (b : Bool) (g : Grant)
    → is_sound_grant g ≡ true
    → is_sound_grant (set_grant now b g) ≡ true
unfolding is_sound_grant set_grant
is_sound_grant-set_grant now true g h = ground arith
is_sound_grant-set_grant now false g h = ground arith

is_sound_grant-revoke_grant :
    (now : ℕ) (g : Grant) → is_sound_grant g ≡ true → is_sound_grant (revoke_grant now g) ≡ true
unfolding is_sound_grant revoke_grant
is_sound_grant-revoke_grant now g h = ground arith

All-update :
    (now id : ℕ) (b : Bool) (gs : List Grant)
    → All (λ g. is_sound_grant g ≡ true) gs
    → All (λ g. is_sound_grant g ≡ true) (update id (set_grant now b) gs)
unfolding update
All-update now id b [] h = tt
All-update now id b (g ∷ gs) (p, h) = elim (Bool-cases (g.capability_id == id)) [
  | inl e ↦ rw e (is_sound_grant-set_grant now b g p, All-update now id b gs h)
  | inr e ↦ rw e (p, All-update now id b gs h)
]

All-apply_wishes :
    (now : ℕ) (ws : List Wish) (gs gs' : List Grant)
    → All (λ g. is_sound_grant g ≡ true) gs
    → apply_wishes now ws gs ≡ inr gs'
    → All (λ g. is_sound_grant g ≡ true) gs'
unfolding apply_wishes
All-apply_wishes now [] gs gs' h e =
    let q : gs ≡ gs' = ground arith in subst (All (λ g. is_sound_grant g ≡ true)) q h
All-apply_wishes now (w ∷ ws) gs gs' h e = elim (Bool-cases (any (is_grant w.capability_id) gs)) [
  | inr absent ↦ absurd (ground arith)
  | inl there ↦
      All-apply_wishes now ws (update w.capability_id (set_grant now w.granted) gs) gs'
        (All-update now w.capability_id w.granted gs h) (rw there at e)
]

All-revoke_grant :
    (now : ℕ) (gs : List Grant)
    → All (λ g. is_sound_grant g ≡ true) gs
    → All (λ g. is_sound_grant g ≡ true) (map (revoke_grant now) gs)
All-revoke_grant now [] h = tt
All-revoke_grant now (g ∷ gs) (p, h) =
    (is_sound_grant-revoke_grant now g p, All-revoke_grant now gs h)

any-revoke_grant : (now : ℕ) (gs : List Grant) → any is_held (map (revoke_grant now) gs) ≡ false
any-revoke_grant now [] = refl
any-revoke_grant now (g ∷ gs) = rw (is_held-revoke_grant now g) (any-revoke_grant now gs)

is_sound_status-status_for :
    (s : Status) (held held' bare never : Bool)
    → is_disconnected s ≡ false
    → is_sound_status s held bare never ≡ true
    → is_sound_status (status_for s held') held' bare never ≡ true
unfolding is_sound_status status_for
is_sound_status-status_for pending_authorization held held' bare never o h = ground arith
is_sound_status-status_for active held held' bare never o h = ground arith
is_sound_status-status_for sync_failed held held' bare never o h = h
is_sound_status-status_for token_revoked held held' bare never o h = h
is_sound_status-status_for disconnected held held' bare never o h = absurd (ground arith)

is_sound_status-open :
    (s : Status) (held bare never : Bool)
    → is_disconnected s ≡ false
    → is_sound_status s held bare never ≡ true
    → never ≡ true
unfolding is_sound_status
is_sound_status-open pending_authorization held bare never o h = ground arith
is_sound_status-open active held bare never o h = ground arith
is_sound_status-open sync_failed held bare never o h = h
is_sound_status-open token_revoked held bare never o h = ground arith
is_sound_status-open disconnected held bare never o h = absurd (ground arith)

is_sound_status-cleared :
    (s : Status) (held bare never : Bool)
    → is_failed s ≡ true
    → held ≡ true
    → is_sound_status s held bare never ≡ true
    → is_sound_status active held bare never ≡ true
unfolding is_sound_status
is_sound_status-cleared sync_failed held bare never f y h = ground arith
is_sound_status-cleared pending_authorization held bare never f y h = absurd (ground arith)
is_sound_status-cleared active held bare never f y h = absurd (ground arith)
is_sound_status-cleared token_revoked held bare never f y h = absurd (ground arith)
is_sound_status-cleared disconnected held bare never f y h = absurd (ground arith)

is_sound_status-failed :
    (s : Status) (held bare never : Bool)
    → (is_active s || is_failed s) ≡ true
    → is_sound_status s held bare never ≡ true
    → is_sound_status sync_failed held bare never ≡ true
unfolding is_sound_status
is_sound_status-failed sync_failed held bare never f h = h
is_sound_status-failed pending_authorization held bare never f h = absurd (ground arith)
is_sound_status-failed active held bare never f h = ground arith
is_sound_status-failed token_revoked held bare never f h = absurd (ground arith)
is_sound_status-failed disconnected held bare never f h = absurd (ground arith)

inr-IsConnector :
    {c c' : Connector}
    → ◌≡◌ {A = ConnectorError ⊎ Connector} (inr c) (inr c')
    → IsConnector c
    → IsConnector c'
inr-IsConnector {c} {c'} e h = let q : c ≡ c' = ground arith in subst IsConnector q h

set_capability_grants-IsConnector :
    (purpose : Purpose) (now : ℕ) (ws : List Wish) (c : Connector) {c' : Connector}
    → IsConnector c
    → set_capability_grants purpose now ws c ≡ inr c'
    → IsConnector c'
set_capability_grants-IsConnector purpose now ws c {c'} (gs, st) e =
    let (open_, (hs, applied, is)) = granted_as purpose now ws c c' e in
    subst IsConnector is (
      All-apply_wishes now ws c.grants hs gs applied,
      is_sound_status-status_for c.status (any is_held c.grants) (any is_held hs)
          (is_null c.secret_ref) (is_null c.disconnected_at) open_ st,
    )

mark_token_revoked-IsConnector :
    (purpose : Purpose) (c : Connector) {c' : Connector}
    → IsConnector c
    → mark_token_revoked purpose c ≡ inr c'
    → IsConnector c'
unfolding mark_token_revoked is_sound_status
mark_token_revoked-IsConnector purpose c {c'} (gs, st) e = elim (Bool-cases (is_manage purpose)) [
  | inr m ↦ let z = rw m at e in absurd (ground arith)
  | inl m ↦ elim (Bool-cases (is_disconnected c.status)) [
    | inl shut ↦ let z = rw (m, shut) at e in absurd (ground arith)
    | inr open_ ↦
        let never = is_sound_status-open c.status _ _ (is_null c.disconnected_at) open_ st in
        let z = rw (m, open_) at e in inr-IsConnector z (gs, never)
  ]
]

disconnect_connector-IsConnector :
    (purpose : Purpose) (now : ℕ) (revoke : Option Bool) (c : Connector) {c' : Connector}
    → IsConnector c
    → disconnect_connector purpose now revoke c ≡ inr c'
    → IsConnector c'
unfolding is_sound_status
disconnect_connector-IsConnector purpose now revoke c {c'} (gs, st) e =
    subst IsConnector (disconnected_as purpose now revoke c c' e)
      (All-revoke_grant now c.grants gs, rw (any-revoke_grant now c.grants) refl)

begin_sync-IsConnector :
    (purpose : Purpose) (c : Connector) {c' : Connector}
    → IsConnector c
    → begin_sync purpose c ≡ inr c'
    → IsConnector c'
unfolding begin_sync
begin_sync-IsConnector purpose c {c'} (gs, st) e = elim (Bool-cases (is_sync purpose)) [
  | inr m ↦ let z = rw m at e in absurd (ground arith)
  | inl m ↦ elim (Bool-cases (any is_held c.grants)) [
    | inr n ↦ absurd (ground arith)
    | inl y ↦ elim (Bool-cases (is_failed c.status)) [
      | inl f ↦
          let z = rw (m, f, y) at e in
          inr-IsConnector z (gs, is_sound_status-cleared c.status _ _ _ f y st)
      | inr f ↦ elim (Bool-cases (is_active c.status)) [
        | inl a ↦ let z = rw (m, f, a, y) at e in inr-IsConnector z (gs, st)
        | inr a ↦ let z = rw (m, f, a) at e in absurd (ground arith)
      ]
    ]
  ]
]

store_cursor-IsConnector :
    (o : Option ℕ) (c : Connector) → IsConnector c → IsConnector (store_cursor o c)
store_cursor-IsConnector none c h = h
store_cursor-IsConnector (some n) c h = h

run_connector_sync-IsConnector :
    (purpose : Purpose) (backfill : Bool) (n : ℕ) (fetch : Option ℕ → Page) (c : Connector)
    {c' : Connector}
    → IsConnector c
    → run_connector_sync purpose backfill n fetch c ≡ inr c'
    → IsConnector c'
unfolding run_connector_sync
run_connector_sync-IsConnector purpose backfill n fetch c {c'} h e =
    let (d, begun, z) = on_success-inr (begin_sync purpose c) _ e in
    inr-IsConnector z (
      store_cursor-IsConnector (fetch_pages fetch n (if backfill then none else c.last_cursor)) d
        (begin_sync-IsConnector purpose c h begun))

record_sync_failure-IsConnector :
    (purpose : Purpose) (code : ℕ) (c : Connector) {c' : Connector}
    → IsConnector c
    → record_sync_failure purpose code c ≡ inr c'
    → IsConnector c'
unfolding record_sync_failure
record_sync_failure-IsConnector purpose code c {c'} (gs, st) e =
    elim (Bool-cases (is_sync purpose)) [
      | inr m ↦ let z = rw m at e in absurd (ground arith)
      | inl m ↦ elim (Bool-cases (is_active c.status || is_failed c.status)) [
        | inl f ↦
            let z = rw (m, f) at e in
            inr-IsConnector z (gs, is_sound_status-failed c.status _ _ _ f st)
        | inr f ↦ let z = rw (m, f) at e in inr-IsConnector z (gs, st)
      ]
    ]

Step-IsConnector : {c c' : Connector} → IsConnector c → Step c c' → IsConnector c'
Step-IsConnector {c} h (consents purpose now ws e) =
    set_capability_grants-IsConnector purpose now ws c h e
Step-IsConnector {c} h (revokes purpose e) = mark_token_revoked-IsConnector purpose c h e
Step-IsConnector {c} h (disconnects purpose now revoke e) =
    disconnect_connector-IsConnector purpose now revoke c h e
Step-IsConnector {c} h (syncs purpose backfill n fetch e) =
    run_connector_sync-IsConnector purpose backfill n fetch c h e
Step-IsConnector {c} h (fails purpose code e) = record_sync_failure-IsConnector purpose code c h e

pub Reach-IsConnector : {c c' : Connector} → IsConnector c → Reach c c' → IsConnector c'
Reach-IsConnector h here = h
Reach-IsConnector h (next r s) = Step-IsConnector (Reach-IsConnector h r) s
