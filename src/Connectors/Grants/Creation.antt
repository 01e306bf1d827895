-- ===== src/Connectors/Grants/Creation.antt =====
-- `createConnector` of packages/connectors/src/grants.ts, which makes a connector with a grant for each
-- capability of its manifest.
mod Tests
use uni.Prelude.{
  ℕ, Bool, true, false, not, ◌&&◌, ◌||◌, ◌==◌, List, [], ◌∷◌, map, Option, none, some, ◌≡◌, ◌⊎◌,
  inl, inr, refl, sym, ◌∙◌, arith, Bool-cases, if◌then◌else◌, any, find, All,
}
use mathlib.Core.Path.{subst}
use uni.Connectors.Grants.{
  Grant, Capability, pending_authorization, active, Connector, Purpose, ConnectorError,
  already_connected, purpose_refused, write_scope_refused, Wish, on_success, is_manage, is_read,
  is_held, is_null, or_unknown, capability_of, check_known, write_capabilities,
}
use uni.Connectors.Grants.Authority.{on_success-inr}
use uni.Connectors.Grants.Lifecycle.{Reach}
use uni.Connectors.Grants.Constraints.{
  IsConnector, is_sound_grant, is_sound_status, Reach-IsConnector,
}

abbrev pub is_writing_capability : Capability → Bool
is_writing_capability c =
    not (is_read c.access)
    || any (λ n. n == c.capability_id) write_capabilities
    || c.is_writing_scope

pub assert_read_only : List Capability → ConnectorError ⊎ Unit {0}
assert_read_only [] = inr tt
assert_read_only (c ∷ cs) =
    let rest = assert_read_only cs in
    if is_writing_capability c then inl write_scope_refused else rest

abbrev pub is_wish : ℕ → Wish → Bool
is_wish id w = w.capability_id == id

-- What the map made of the entries answers for a capability: the last entry decides.
pub is_asked : List Wish → ℕ → Bool
is_asked [] id = false
is_asked (w ∷ ws) id = if any (is_wish id) ws then is_asked ws id else is_wish id w && w.granted

-- Whether a value of the map is true.
pub asks_any : List Wish → Bool
asks_any [] = false
asks_any (w ∷ ws) = (w.granted && not (any (is_wish w.capability_id) ws)) || asks_any ws

pub created_grant : ℕ → List Wish → Capability → Grant
created_grant now ws c = record {
  capability_id = c.capability_id;
  access = c.access;
  granted = is_asked ws c.capability_id;
  granted_at = if is_asked ws c.capability_id then some now else none;
  revoked_at = none;
}

pub created_row : ℕ → Option ℕ → List Wish → List Capability → Connector
created_row now secret_ref ws manifest = record {
  status = if asks_any ws then active else pending_authorization;
  secret_ref = secret_ref;
  last_cursor = none;
  last_sync_error = none;
  disconnected_at = none;
  manifest = manifest;
  grants = map (created_grant now ws) manifest;
}

-- `existing` tells whether the account is connected already.
pub create_connector :
    Purpose → ℕ → Option ℕ → Bool → List Wish → List Capability → ConnectorError ⊎ Connector
create_connector purpose now secret_ref existing ws manifest =
    if not (is_manage purpose)
    then inl purpose_refused
    else on_success (check_known manifest ws) (λ _. on_success (assert_read_only manifest) (λ _.
      if existing then inl already_connected else inr (created_row now secret_ref ws manifest)))

is_sound_grant-created_grant :
    (now : ℕ) (ws : List Wish) (c : Capability)
    → is_read c.access ≡ true
    → is_sound_grant (created_grant now ws c) ≡ true
unfolding created_grant is_sound_grant
is_sound_grant-created_grant now ws c h = ground arith

All-created_grant :
    (now : ℕ) (ws : List Wish) (cs : List Capability) {u : Unit {0}}
    → assert_read_only cs ≡ inr u
    → All (λ g. is_sound_grant g ≡ true) (map (created_grant now ws) cs)
unfolding assert_read_only
All-created_grant now ws [] e = tt
All-created_grant now ws (c ∷ cs) e = elim (Bool-cases (is_writing_capability c)) [
  | inl w ↦ let z = rw w at e in absurd (ground arith)
  | inr r ↦
      let reads : is_read c.access ≡ true = ground arith in
      (is_sound_grant-created_grant now ws c reads, All-created_grant now ws cs (rw r at e))
]

is_asked-named : (ws : List Wish) (id : ℕ) → is_asked ws id ≡ true → any (is_wish id) ws ≡ true
unfolding is_asked
is_asked-named [] id h = absurd (ground arith)
is_asked-named (w ∷ ws) id h = elim (Bool-cases (any (is_wish id) ws)) [
  | inl y ↦ ground arith
  | inr n ↦ let z = rw n at h in ground arith
]

asks_any-is_asked : (ws : List Wish) (id : ℕ) → is_asked ws id ≡ true → asks_any ws ≡ true
unfolding is_asked asks_any
asks_any-is_asked [] id h = absurd (ground arith)
asks_any-is_asked (w ∷ ws) id h = elim (Bool-cases (any (is_wish id) ws)) [
  | inl y ↦ let z = asks_any-is_asked ws id (rw y at h) in ground arith
  | inr n ↦
      let z = rw n at h in
      let same : id ≡ w.capability_id = ground arith in
      let m : any (is_wish w.capability_id) ws ≡ false =
        subst (λ k. any (is_wish k) ws ≡ false) same n in
      ground arith
]

or_unknown-any :
    (id : ℕ) (cs : List Capability) {k : Capability}
    → or_unknown id (find (λ (c : Capability). c.capability_id == id) cs) ≡ inr k
    → any (λ (c : Capability). c.capability_id == id) cs ≡ true
or_unknown-any id [] e = absurd (ground arith)
or_unknown-any id (c ∷ cs) e = elim (Bool-cases (c.capability_id == id)) [
  | inl y ↦ ground arith
  | inr n ↦ let z = or_unknown-any id cs (rw n at e) in ground arith
]

abbrev HasAnswer : List Capability → List Wish → Type 0
HasAnswer cs ws =
    (id : ℕ) × (is_asked ws id ≡ true) × (any (λ (c : Capability). c.capability_id == id) cs ≡ true)

is_asked-asks_any :
    (cs : List Capability) (ws : List Wish) {u : Unit {0}}
    → check_known cs ws ≡ inr u
    → asks_any ws ≡ true
    → HasAnswer cs ws
unfolding is_asked asks_any check_known capability_of
is_asked-asks_any cs [] e h = absurd (ground arith)
is_asked-asks_any cs (w ∷ ws) e h =
    let (k, known, rest) = on_success-inr (capability_of cs w.capability_id) _ e in
    elim (Bool-cases (asks_any ws)) [
      | inl y ↦
          let (id, asked, there) = is_asked-asks_any cs ws rest y in
          (id, rw (is_asked-named ws id asked) asked, there)
      | inr n ↦
          let fresh : any (is_wish w.capability_id) ws ≡ false = ground arith in
          let granted : w.granted ≡ true = ground arith in
          let self : (w.capability_id == w.capability_id) ≡ true = ground arith in
          (
            w.capability_id,
            rw fresh (rw (self, granted) refl),
            or_unknown-any w.capability_id cs known,
          )
    ]

is_held-created_grant :
    (now : ℕ) (ws : List Wish) (c : Capability)
    → is_held (created_grant now ws c) ≡ is_asked ws c.capability_id
unfolding created_grant
is_held-created_grant now ws c = ground arith

any-created_grant :
    (now id : ℕ) (ws : List Wish) (cs : List Capability)
    → is_asked ws id ≡ true
    → any (λ (c : Capability). c.capability_id == id) cs ≡ true
    → any is_held (map (created_grant now ws) cs) ≡ true
any-created_grant now id ws [] a h = absurd (ground arith)
any-created_grant now id ws (c ∷ cs) a h =
    let is = is_held-created_grant now ws c in
    elim (Bool-cases (c.capability_id == id)) [
      | inl y ↦
          let same : id ≡ c.capability_id = ground arith in
          let b = subst (λ k. is_asked ws k ≡ true) same a in rw is (rw b refl)
      | inr n ↦ let z = any-created_grant now id ws cs a (rw n at h) in ground arith
    ]

asks_any-created_grant :
    (now : ℕ) (ws : List Wish) (cs : List Capability)
    → any is_held (map (created_grant now ws) cs) ≡ true
    → asks_any ws ≡ true
asks_any-created_grant now ws [] h = absurd (ground arith)
asks_any-created_grant now ws (c ∷ cs) h = elim (Bool-cases (is_asked ws c.capability_id)) [
  | inl y ↦ asks_any-is_asked ws c.capability_id y
  | inr n ↦ asks_any-created_grant now ws cs (rw (is_held-created_grant now ws c ∙ n) at h)
]

any-asks_any :
    (now : ℕ) (ws : List Wish) (cs : List Capability) {u : Unit {0}}
    → check_known cs ws ≡ inr u
    → any is_held (map (created_grant now ws) cs) ≡ asks_any ws
any-asks_any now ws cs e = elim (Bool-cases (asks_any ws)) [
  | inl y ↦
      let (id, asked, there) = is_asked-asks_any cs ws e y in
      any-created_grant now id ws cs asked there ∙ sym y
  | inr n ↦ elim (Bool-cases (any is_held (map (created_grant now ws) cs))) [
    | inl held ↦ let z = asks_any-created_grant now ws cs held in absurd (ground arith)
    | inr free ↦ free ∙ sym n
  ]
]

is_sound_status-created :
    (b bare : Bool)
    → is_sound_status (if b then active else pending_authorization) b bare true ≡ true
unfolding is_sound_status
is_sound_status-created b bare = ground arith

create_connector-IsConnector :
    (purpose : Purpose) (now : ℕ) (secret_ref : Option ℕ) (existing : Bool) (ws : List Wish)
    (cs : List Capability) {c : Connector}
    → create_connector purpose now secret_ref existing ws cs ≡ inr c
    → IsConnector c
unfolding create_connector created_row
create_connector-IsConnector purpose now secret_ref existing ws cs {c} e =
    elim (Bool-cases (is_manage purpose)) [
      | inr m ↦ let z = rw m at e in absurd (ground arith)
      | inl m ↦
          let (_, known, e1) = on_success-inr (check_known cs ws) _ (rw m at e) in
          let (_, reads, e2) = on_success-inr (assert_read_only cs) _ e1 in
          let is : created_row now secret_ref ws cs ≡ c = ground arith in
          subst IsConnector is (
            All-created_grant now ws cs reads,
            rw (any-asks_any now ws cs known)
                (is_sound_status-created (asks_any ws) (is_null secret_ref)),
          )
    ]

-- Whatever operations run after its creation, a connector satisfies the constraints of the database:
-- each grant is for reading and has the instants that its state asks for, the connector is active only
-- while a capability is held and awaits authorization only while none is, a revoked or disconnected one
-- has no credential, and exactly a disconnected one has the instant of that.
pub create_connector-Reach :
    (purpose : Purpose) (now : ℕ) (secret_ref : Option ℕ) (existing : Bool) (ws : List Wish)
    (cs : List Capability) {c c' : Connector}
    → create_connector purpose now secret_ref existing ws cs ≡ inr c
    → Reach c c'
    → IsConnector c'
create_connector-Reach purpose now secret_ref existing ws cs e r =
    Reach-IsConnector (create_connector-IsConnector purpose now secret_ref existing ws cs e) r
