-- ===== src/Connectors/Grants.antt =====
-- packages/connectors/src/grants.ts, and of sync.ts what a sync does to the connector: one connector with
-- its capability grants. The scopes and the public views are left out, and so is
-- what a page of a sync stores; `revoke` is what the provider answers to a revocation, if it can be asked.
pub mod Authority
pub mod Constraints
pub mod Creation
pub mod Lifecycle
use uni.Prelude.{
  ℕ, zero, suc, Bool, true, false, not, ◌&&◌, ◌||◌, List, [], ◌∷◌, map, Option, none, some, ◌⊎◌,
  inl, inr, if◌then◌else◌, ◌==◌, find, any, select,
}

pub data Access : Type 0 where
  read write : Access

pub record Capability : Type 0 where
  pub capability_id : ℕ
  pub access : Access
  -- Whether `isWriteScope` holds of one of its scopes.
  pub is_writing_scope : Bool

-- A row of `connector_capability_grants`.
pub record Grant : Type 0 where
  pub capability_id : ℕ
  pub access : Access
  pub granted : Bool
  pub granted_at : Option ℕ
  pub revoked_at : Option ℕ

pub data Status : Type 0 where
  pending_authorization active sync_failed token_revoked disconnected : Status

-- A row of `connectors`, with its manifest and its grants.
pub record Connector : Type 0 where
  pub status : Status
  pub secret_ref : Option ℕ
  pub last_cursor : Option ℕ
  pub last_sync_error : Option ℕ
  pub disconnected_at : Option ℕ
  pub manifest : List Capability
  pub grants : List Grant

pub data Purpose : Type 0 where
  manage sync view : Purpose

pub data ConnectorError : Type 0 where
  purpose_refused capability_unknown write_scope_refused already_connected connector_disconnected :
      ConnectorError
  ingestion_stopped capability_not_granted revocation_unavailable revocation_failed : ConnectorError

-- What throws ends the operation.
abbrev pub on_success :
    {A B : Type 0} → ConnectorError ⊎ A → (A → ConnectorError ⊎ B) → ConnectorError ⊎ B
on_success (inl e) k = inl e
on_success (inr a) k = k a

abbrev pub is_manage : Purpose → Bool
is_manage manage = true
is_manage _ = false

abbrev pub is_sync : Purpose → Bool
is_sync sync = true
is_sync _ = false

abbrev pub is_read : Access → Bool
is_read read = true
is_read write = false

-- The write capabilities of the vocabulary, which are named by a request but offered by no manifest.
abbrev pub write_capabilities : List ℕ
write_capabilities = 0 ∷ 1 ∷ 2 ∷ 3 ∷ 4 ∷ 5 ∷ 6 ∷ []

abbrev pub or_unknown : ℕ → Option Capability → ConnectorError ⊎ Capability
or_unknown id none =
    if any (λ n. n == id) write_capabilities
    then inl write_scope_refused
    else inl capability_unknown
or_unknown id (some c) = inr c

pub capability_of : List Capability → ℕ → ConnectorError ⊎ Capability
capability_of manifest id =
    or_unknown id (find (λ (c : Capability). c.capability_id == id) manifest)

-- An entry of a request.
pub record Wish : Type 0 where
  pub capability_id : ℕ
  pub granted : Bool

pub check_known : List Capability → List Wish → ConnectorError ⊎ Unit {0}
check_known manifest [] = inr tt
check_known manifest (w ∷ ws) =
    on_success (capability_of manifest w.capability_id)
      (λ (c : Capability). check_known manifest ws)

abbrev pub writes : Option Capability → Bool
writes none = false
writes (some c) = not (is_read c.access)

abbrev pub is_writing : List Capability → Wish → Bool
is_writing manifest w =
    w.granted && writes (find (λ (c : Capability). c.capability_id == w.capability_id) manifest)

-- Every entry is known, and none grants a write capability.
pub check_wishes : List Capability → List Wish → ConnectorError ⊎ Unit {0}
check_wishes manifest ws =
    on_success (check_known manifest ws)
      (λ _. if any (is_writing manifest) ws then inl write_scope_refused else inr tt)

abbrev pub or_now : Option ℕ → ℕ → Option ℕ
or_now none now = some now
or_now (some at) now = some at

-- The UPDATE of one grant.
pub set_grant : ℕ → Bool → Grant → Grant
set_grant now true g = record g {
  granted = true;
  granted_at = or_now g.granted_at now;
  revoked_at = none;
}
set_grant now false g = record g {
  granted = false;
  revoked_at = if g.granted then some now else g.revoked_at;
}

pub update : ℕ → (Grant → Grant) → List Grant → List Grant
update id f [] = []
update id f (g ∷ gs) = (if g.capability_id == id then f g else g) ∷ update id f gs

abbrev pub is_grant : ℕ → Grant → Bool
is_grant id g = g.capability_id == id

pub apply_wishes : ℕ → List Wish → List Grant → ConnectorError ⊎ List Grant
apply_wishes now [] gs = inr gs
apply_wishes now (w ∷ ws) gs =
    let rest = apply_wishes now ws (update w.capability_id (set_grant now w.granted) gs) in
    if any (is_grant w.capability_id) gs then rest else inl capability_unknown

-- `granted AND revoked_at IS NULL`
abbrev pub is_null : Option ℕ → Bool
is_null none = true
is_null (some n) = false

abbrev pub is_held : Grant → Bool
is_held g = g.granted && is_null g.revoked_at

pub granted_capabilities : Connector → List ℕ
granted_capabilities c = map (λ (g : Grant). g.capability_id) (select is_held c.grants)

abbrev pub is_consent : Status → Bool
is_consent pending_authorization = true
is_consent active = true
is_consent _ = false

abbrev pub is_disconnected : Status → Bool
is_disconnected disconnected = true
is_disconnected _ = false

-- The status after the grants have changed.
pub status_for : Status → Bool → Status
status_for status holds =
    if is_consent status then (if holds then active else pending_authorization) else status

abbrev pub with_grants : Connector → List Grant → Connector
with_grants c gs = record c { grants = gs; status = status_for c.status (any is_held gs) }

pub set_capability_grants : Purpose → ℕ → List Wish → Connector → ConnectorError ⊎ Connector
set_capability_grants purpose now wishes c =
    if not (is_manage purpose)
    then inl purpose_refused
    else if is_disconnected c.status
    then inl connector_disconnected
    else on_success (check_wishes c.manifest wishes)
        (λ _. on_success (apply_wishes now wishes c.grants) (λ gs. inr (with_grants c gs)))

abbrev pub is_stopped : Status → Bool
is_stopped token_revoked = true
is_stopped disconnected = true
is_stopped _ = false

abbrev pub holds : Option Grant → Bool
holds none = false
holds (some g) = is_held g

pub require_capability : ℕ → Connector → ConnectorError ⊎ Capability
require_capability id c = on_success (capability_of c.manifest id) (λ (k : Capability).
    if not (is_read k.access)
    then inl write_scope_refused
    else if is_stopped c.status
    then inl ingestion_stopped
    else if not (holds (find (is_grant id) c.grants))
    then inl capability_not_granted
    else inr k)

abbrev pub connector_token_revoked : ℕ
connector_token_revoked = 0

pub mark_token_revoked : Purpose → Connector → ConnectorError ⊎ Connector
mark_token_revoked purpose c =
    if not (is_manage purpose)
    then inl purpose_refused
    else if is_disconnected c.status
    then inl connector_disconnected
    else inr (record c {
      status = token_revoked;
      secret_ref = none;
      last_sync_error = some connector_token_revoked;
    })

abbrev pub or_first : Option ℕ → ℕ → Option ℕ
or_first (some at) now = some at
or_first none now = some now

pub revoke_grant : ℕ → Grant → Grant
revoke_grant now g =
    if g.granted then record g { granted = false; revoked_at = or_first g.revoked_at now } else g

abbrev pub disconnected_row : ℕ → Connector → Connector
disconnected_row now c = record c {
  status = disconnected;
  secret_ref = none;
  last_cursor = none;
  last_sync_error = none;
  disconnected_at = some now;
  grants = map (revoke_grant now) c.grants;
}

-- The provider is asked first, where there is a credential.
pub check_revoked : Option ℕ → Option Bool → ConnectorError ⊎ Unit {0}
check_revoked none revoke = inr tt
check_revoked (some secret) none = inl revocation_unavailable
check_revoked (some secret) (some true) = inr tt
check_revoked (some secret) (some false) = inl revocation_failed

pub disconnect_connector : Purpose → ℕ → Option Bool → Connector → ConnectorError ⊎ Connector
disconnect_connector purpose now revoke c =
    if not (is_manage purpose)
    then inl purpose_refused
    else if is_disconnected c.status
    then inl connector_disconnected
    else on_success (check_revoked c.secret_ref revoke) (λ _. inr (disconnected_row now c))

abbrev pub is_failed : Status → Bool
is_failed sync_failed = true
is_failed _ = false

abbrev pub is_active : Status → Bool
is_active active = true
is_active _ = false

-- The statements of a sync before the first page; a failure is cleared.
pub begin_sync : Purpose → Connector → ConnectorError ⊎ Connector
begin_sync purpose c =
    if not (is_sync purpose)
    then inl purpose_refused
    else if is_failed c.status
    then (if any is_held c.grants
        then inr (record c { status = active; last_sync_error = none })
        else inl capability_not_granted)
    else if not (is_active c.status)
    then inl ingestion_stopped
    else if any is_held c.grants
    then inr c
    else inl capability_not_granted

-- What the provider answers for a cursor: whether a page holds payloads, and the next cursor.
pub record Page : Type 0 where
  pub has_payloads : Bool
  pub next_cursor : Option ℕ

-- The loop over the pages, with the cursor that it ends with.
pub fetch_pages : (Option ℕ → Page) → ℕ → Option ℕ → Option ℕ
fetch_pages fetch zero cursor = cursor
fetch_pages fetch (suc n) cursor =
    let answer = fetch cursor in
    let rest = fetch_pages fetch n answer.next_cursor in
    if is_null answer.next_cursor || not answer.has_payloads then answer.next_cursor else rest

abbrev pub store_cursor : Option ℕ → Connector → Connector
store_cursor none c = c
store_cursor (some cursor) c = record c { last_cursor = some cursor; last_sync_error = none }

-- A sync that reads on from the stored cursor, or from the start for a backfill.
pub run_connector_sync :
    Purpose → Bool → ℕ → (Option ℕ → Page) → Connector → ConnectorError ⊎ Connector
run_connector_sync purpose backfill max_pages fetch c = on_success (begin_sync purpose c) (λ c'.
    inr (store_cursor (fetch_pages fetch max_pages (if backfill then none else c.last_cursor)) c'))

pub record_sync_failure : Purpose → ℕ → Connector → ConnectorError ⊎ Connector
record_sync_failure purpose code c =
    if not (is_sync purpose)
    then inl purpose_refused
    else if is_active c.status || is_failed c.status
    then inr (record c { status = sync_failed; last_sync_error = some code })
    else inr c
