-- ===== src/Connectors/Grants/Creation/Tests.antt =====
-- A connector of packages/connectors/src/grants.ts with two capabilities: one is asked for at its creation,
-- the other by a consent; a sync fails, and the connector is disconnected.
use uni.Prelude.{ℕ, true, false, List, [], ◌∷◌, Option, none, some, ◌≡◌, inr, refl}
use uni.Connectors.Grants.{
  Capability, read, sync_failed, Connector, manage, sync, Wish, capability_of, check_known,
  check_wishes, set_grant, update, apply_wishes, status_for, set_capability_grants,
  require_capability, granted_capabilities, disconnected_row, check_revoked, disconnect_connector,
  begin_sync, Page, fetch_pages, run_connector_sync, record_sync_failure,
}
use uni.Connectors.Grants.Authority.{set_capability_grants-others}
use uni.Connectors.Grants.Lifecycle.{
  here, next, consents, disconnects, fails, syncs, disconnect_connector-final,
}
use uni.Connectors.Grants.Constraints.{IsConnector}
use uni.Connectors.Grants.Creation.{
  assert_read_only, is_asked, asks_any, created_grant, created_row, create_connector,
  create_connector-Reach,
}

abbrev offered : List Capability
offered =
    record { capability_id = 10; access = read; is_writing_scope = false }
    ∷ record { capability_id = 11; access = read; is_writing_scope = false }
    ∷ []

abbrev first : List Wish
first = record { capability_id = 10; granted = true } ∷ []

abbrev second : List Wish
second = record { capability_id = 11; granted = true } ∷ []

-- The connector after each operation.
abbrev linked : Connector
linked = created_row 100 (some 5) first offered

abbrev consented : Connector
consented = record linked { grants = update 11 (set_grant 200 true) linked.grants }

abbrev synced : Connector
synced = record consented { last_cursor = some 3; last_sync_error = none }

abbrev failed : Connector
failed = record synced { status = sync_failed; last_sync_error = some 9 }

-- The provider has pages up to the cursor 3.
abbrev pages : Option ℕ → Page
pages none = record { has_payloads = true; next_cursor = some 3 }
pages (some n) = record { has_payloads = false; next_cursor = some n }

is_linked : create_connector manage 100 (some 5) false first offered ≡ inr linked
unfolding create_connector check_known capability_of assert_read_only created_row asks_any is_asked
    created_grant
is_linked = refl

is_consented : set_capability_grants manage 200 second linked ≡ inr consented
unfolding set_capability_grants check_wishes check_known capability_of apply_wishes update set_grant
    status_for created_row created_grant is_asked asks_any
is_consented = refl

is_synced : run_connector_sync sync false 5 pages consented ≡ inr synced
unfolding run_connector_sync begin_sync fetch_pages created_row created_grant is_asked asks_any
    update set_grant
is_synced = refl

is_failed_sync : record_sync_failure sync 9 synced ≡ inr failed
unfolding record_sync_failure created_row asks_any
is_failed_sync = refl

is_disconnected_row :
    disconnect_connector manage 300 (some true) failed ≡ inr (disconnected_row 300 failed)
unfolding disconnect_connector check_revoked created_row
is_disconnected_row = refl

ignores_failure :
    record_sync_failure sync 4 (disconnected_row 300 failed) ≡ inr (disconnected_row 300 failed)
unfolding record_sync_failure
ignores_failure = refl

set_capability_grants-others_example :
    require_capability 10 consented ≡ require_capability 10 linked
set_capability_grants-others_example =
    set_capability_grants-others manage 200 second 10 linked is_consented (refl, tt)

disconnect_connector-final_example :
    (disconnected_row 300 failed ≡ disconnected_row 300 failed)
    × ((granted_capabilities (disconnected_row 300 failed) ≡ [])
        × ((id : ℕ) (k : Capability)
            → require_capability id (disconnected_row 300 failed) ≡ inr k
            → ⊥))
disconnect_connector-final_example =
    disconnect_connector-final manage 300 (some true) failed is_disconnected_row
      (next here (fails sync 4 ignores_failure))

create_connector-Reach_example : IsConnector (disconnected_row 300 failed)
create_connector-Reach_example =
    create_connector-Reach manage 100 (some 5) false first offered is_linked (
      next
        (next
          (next (next here (consents manage 200 second is_consented))
            (syncs sync false 5 pages is_synced))
          (fails sync 9 is_failed_sync))
        (disconnects manage 300 (some true) is_disconnected_row))
