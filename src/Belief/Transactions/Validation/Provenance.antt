-- ===== src/Belief/Transactions/Validation/Provenance.antt =====
-- packages/belief/src/transactions.ts: where the claims and the support of a transaction come from.
use uni.Prelude.{
  ℕ, Bool, true, false, List, [], ◌∷◌, ◌++◌, map, Option, none, some, if◌then◌else◌, ◌==◌, find,
  select, contains, Uuid,
}
use uni.Belief.Transactions.{
  Ref, pending, stored, ClaimOrigin, Operation, NewClaim, Canon, ClaimRow, SupportRow, Result, ok,
  err, ◌>>=◌, ref_unresolved, support_origin_unreadable, support_names_one_supporter,
}
use uni.Belief.Transactions.Contracts.{Source, Env, created_claim}

-- MODEL_ORIGINS
unfoldable pub is_model_origin : ClaimOrigin → Bool
is_model_origin ClaimOrigin.model_extraction = true
is_model_origin ClaimOrigin.model_inference = true
is_model_origin ClaimOrigin.model_recommendation = true
is_model_origin ClaimOrigin.model_prediction = true
is_model_origin _ = false

abbrev pub shows_assistant : Option Source → Bool
shows_assistant none = false
shows_assistant (some s) = s.is_assistant

-- `anchoredInAssistantEvidence`, of an anchor and of a stored claim.
unfoldable pub anchored_in_assistant : Env → Uuid → Bool
anchored_in_assistant env anchor = shows_assistant (env.source_of anchor)

unfoldable pub claim_of : Uuid → Canon → Option ClaimRow
claim_of id m = find (λ (c : ClaimRow). c.id == id) m.claims

unfoldable pub stored_groups : Canon → Uuid → List ℕ
stored_groups m p =
    map (λ (r : SupportRow). r.independence_group)
      (select (λ (r : SupportRow). r.proposition_id == p) m.supports)

abbrev pub or_unreadable : Env → Option Uuid → Option Source → Result ℕ
or_unreadable env by none = err support_origin_unreadable
or_unreadable env by (some s) = ok (env.group_key by s)

unfoldable pub group_for_claim : Env → Option ClaimRow → Result ℕ
group_for_claim env none = err support_origin_unreadable
group_for_claim env (some c) =
    or_unreadable env c.asserted_by_entity_id (env.source_of c.source_anchor_id)

unfoldable pub group_for_pending : Env → Option NewClaim → Result ℕ
group_for_pending env none = err ref_unresolved
group_for_pending env (some n) =
    or_unreadable env n.asserted_by_entity_id (env.source_of n.source_anchor_id)

-- `groupForSupport`. A support that names no supporter is a type error there, which is thrown too.
unfoldable pub group_for_support : Env → List Operation → Canon → Option Ref → Option Ref → Result ℕ
group_for_support env ops m (some (pending ref)) resting =
    group_for_pending env (created_claim ref ops)
group_for_support env ops m (some (stored id)) resting = group_for_claim env (claim_of id m)
group_for_support env ops m none (some (pending ref)) = ok (env.derived_group_key [])
group_for_support env ops m none (some (stored id)) =
    ok (env.derived_group_key (stored_groups m id))
group_for_support env ops m none none = err support_names_one_supporter

-- The variables of the loop: whether each claim that counts is a model's, the `#ref`s of claims that
-- are anchored in an assistant's message, and whether one of these supports something.
pub record Origins : Type 0 where
  pub claim_origins : List Bool
  pub assistant_claim_refs : List ℕ
  pub assistant_support : Bool

unfoldable pub add_claim_origin : Env → ℕ → NewClaim → Origins → Origins
add_claim_origin env ref n o =
    if anchored_in_assistant env n.source_anchor_id
    then record o {
      claim_origins = o.claim_origins ++ true ∷ [];
      assistant_claim_refs = ref ∷ o.assistant_claim_refs;
    }
    else record o { claim_origins = o.claim_origins ++ is_model_origin n.claim_origin ∷ [] }

pub add_stored_origin : Env → Option ClaimRow → Origins → Origins
add_stored_origin env none o = o
add_stored_origin env (some c) o =
    if anchored_in_assistant env c.source_anchor_id
    then record o { claim_origins = o.claim_origins ++ true ∷ []; assistant_support = true }
    else record o { claim_origins = o.claim_origins ++ is_model_origin c.claim_origin ∷ [] }

unfoldable pub add_support_origin : Env → Canon → Option Ref → Origins → Origins
add_support_origin env m none o = o
add_support_origin env m (some (pending ref)) o =
    if contains o.assistant_claim_refs ref then record o { assistant_support = true } else o
add_support_origin env m (some (stored id)) o = add_stored_origin env (claim_of id m) o

-- The loop, over the operations that are left; `all` are the operations of the transaction.
unfoldable pub origins_from :
    Env → List Operation → Canon → List Operation → Origins → Result Origins
origins_from env ops m [] o = ok o
origins_from env ops m (Operation.add_claim ref n ∷ rest) o =
    origins_from env ops m rest (add_claim_origin env ref n o)
origins_from env ops m (Operation.add_support p by resting ∷ rest) o = do
  _ ← group_for_support env ops m by resting
  origins_from env ops m rest (add_support_origin env m by o)
origins_from env ops m (_ ∷ rest) o = origins_from env ops m rest o

abbrev pub no_origins : Origins
no_origins = record { claim_origins = []; assistant_claim_refs = []; assistant_support = false }
