-- ===== src/Review/Rules.antt =====
-- packages/review/src/rules.ts: learned approval rules of one owner scope, on the tables of rules
-- and of clarification cards. The signatures, which are hashes, are parameters. Texts, choices,
-- scopes and identifiers are compared only, and the display text of a rule is left out.
pub mod Effect
pub mod Lifecycle
mod Tests
use uni.Prelude.{
  ℕ, zero, suc, Bool, true, false, ◌&&◌, ◌||◌, not, List, [], ◌∷◌, map, Option, none, some,
  if◌then◌else◌, ltb, leb, ◌==◌, select, find, any, contains, length, Uuid,
}
use uni.Prelude.Sorting.{sort}

pub data RuleStatus : Type 0 where
  proposed approved revoked : RuleStatus

abbrev pub is_proposed : RuleStatus → Bool
is_proposed proposed = true
is_proposed _ = false

abbrev pub is_approved : RuleStatus → Bool
is_approved approved = true
is_approved _ = false

abbrev pub is_revoked : RuleStatus → Bool
is_revoked revoked = true
is_revoked _ = false

pub data SituationKind : Type 0 where
  repayment general : SituationKind

abbrev pub kind_eq : SituationKind → SituationKind → Bool
kind_eq repayment repayment = true
kind_eq general general = true
kind_eq _ _ = false

pub data CardEffect : Type 0 where
  confirm reject keep_uncertain : CardEffect

abbrev pub effect_eq : CardEffect → CardEffect → Bool
effect_eq confirm confirm = true
effect_eq reject reject = true
effect_eq keep_uncertain keep_uncertain = true
effect_eq _ _ = false

pub record RuleBasis : Type 0 where
  pub situation_kind : SituationKind
  pub match_text : ℕ

pub record CardChoice : Type 0 where
  pub choice_id : ℕ
  pub effect : CardEffect

pub record RuleScope : Type 0 where
  pub situation_kind : SituationKind
  pub match_text : ℕ
  pub choice_id : ℕ
  pub effect : CardEffect
  pub sensitivity_scope : ℕ

-- A row of `learned_approval_rules`.
pub record Rule : Type 0 where
  pub id : Uuid
  pub scope : RuleScope
  pub rule_signature : ℕ
  pub status : RuleStatus
  pub proposed_from_card_ids : List Uuid
  pub proposed_at : ℕ
  pub approved_by_user_id : Option ℕ
  pub approved_at : Option ℕ
  pub revoked_at : Option ℕ

-- An answered row of `clarification_cards`, the part that is read here.
pub record AnsweredCard : Type 0 where
  pub id : Uuid
  pub rule_signature : ℕ
  pub answered_by_owner : Bool
  pub choice_id : ℕ
  pub effect : CardEffect
  pub answered_at : ℕ

pub data RuleError : Type 0 where
  learned_rule_not_found learned_rule_not_proposed : RuleError

pub data Result {ℓ} (A : Type ℓ) : Type ℓ where
  ok : A → Result A
  err : RuleError → Result A

infixl 5 ◌>>=◌
abbrev pub ◌>>=◌ {ℓ κ} : {A : Type ℓ} {B : Type κ} → Result A → (A → Result B) → Result B
ok a >>= f = f a
err e >>= f = err e

abbrev pub Rules : Type 0
Rules = List Rule

abbrev pub has_id : Uuid → Rule → Bool
has_id id r = r.id == id

abbrev pub found : Option Rule → Result Rule
found none = err learned_rule_not_found
found (some r) = ok r

pub read_learned_rule : Uuid → Rules → Result Rule
read_learned_rule id rules = found (find (has_id id) rules)

-- The two updates, for one row.
pub approve_row : Uuid → ℕ → ℕ → Rule → Rule
approve_row id actor now r =
    if has_id id r && is_proposed r.status
    then record r { status = approved; approved_by_user_id = some actor; approved_at = some now }
    else r

pub revoke_row : Uuid → ℕ → Rule → Rule
revoke_row id now r =
    if has_id id r && (is_proposed r.status || is_approved r.status)
    then record r { status = revoked; revoked_at = some now }
    else r

abbrev pub reread : Uuid → Rules → Result (Rule × Rules)
reread id rules = do r ← read_learned_rule id rules; ok (r, rules)

pub approve_from : RuleStatus → Uuid → ℕ → ℕ → Rules → Result (Rule × Rules)
approve_from approved id actor now rules = reread id rules
approve_from revoked id actor now rules = err learned_rule_not_proposed
approve_from proposed id actor now rules = reread id (map (approve_row id actor now) rules)

pub approve_learned_rule : Uuid → ℕ → ℕ → Rules → Result (Rule × Rules)
approve_learned_rule id actor now rules = do
  current ← read_learned_rule id rules
  approve_from current.status id actor now rules

pub revoke_from : RuleStatus → Uuid → ℕ → Rules → Result (Rule × Rules)
revoke_from revoked id now rules = reread id rules
revoke_from _ id now rules = reread id (map (revoke_row id now) rules)

pub revoke_learned_rule : Uuid → ℕ → Rules → Result (Rule × Rules)
revoke_learned_rule id now rules = do
  current ← read_learned_rule id rules
  revoke_from current.status id now rules

abbrev pub at_or_zero : Option ℕ → ℕ
at_or_zero none = 0
at_or_zero (some t) = t

-- `ORDER BY approved_at DESC,id DESC`
abbrev pub newer : Rule → Rule → Bool
newer r s =
    if at_or_zero r.approved_at == at_or_zero s.approved_at
    then ltb s.id r.id
    else ltb (at_or_zero s.approved_at) (at_or_zero r.approved_at)

pub is_applicable : RuleBasis → ℕ → Rule → Bool
is_applicable basis sensitivity r =
    is_approved r.status
    && (kind_eq r.scope.situation_kind basis.situation_kind
        && ((r.scope.match_text == basis.match_text) && (r.scope.sensitivity_scope == sensitivity)))

abbrev pub is_choice_of : RuleScope → CardChoice → Bool
is_choice_of scope c = (c.choice_id == scope.choice_id) && effect_eq c.effect scope.effect

abbrev pub with_choice :
    Rule → Option CardChoice → Option (Rule × CardChoice) → Option (Rule × CardChoice)
with_choice r none rest = rest
with_choice r (some c) rest = some (r, c)

-- The loop over the matching rules.
pub first_with_choice : List CardChoice → Rules → Option (Rule × CardChoice)
first_with_choice choices [] = none
first_with_choice choices (r ∷ rules) =
    with_choice r (find (is_choice_of r.scope) choices) (first_with_choice choices rules)

pub approved_rule_for : Option RuleBasis → ℕ → List CardChoice → Rules → Option (Rule × CardChoice)
approved_rule_for none sensitivity choices rules = none
approved_rule_for (some basis) sensitivity choices rules =
    first_with_choice choices (sort newer (select (is_applicable basis sensitivity) rules))

abbrev pub repeated_confirmations_for_proposal : ℕ
repeated_confirmations_for_proposal = 2

abbrev pub take {ℓ} : {A : Type ℓ} → ℕ → List A → List A
take zero xs = []
take (suc n) [] = []
take (suc n) (x ∷ xs) = x ∷ take n xs

abbrev pub answered_before : AnsweredCard → AnsweredCard → Bool
answered_before c d =
    if c.answered_at == d.answered_at then ltb c.id d.id else ltb c.answered_at d.answered_at

pub is_repeat : ℕ → CardChoice → AnsweredCard → Bool
is_repeat signature choice c =
    (c.rule_signature == signature)
    && (c.answered_by_owner
        && ((c.choice_id == choice.choice_id) && effect_eq c.effect choice.effect))

pub repeats : ℕ → CardChoice → List AnsweredCard → List AnsweredCard
repeats signature choice cards =
    take 64 (sort answered_before (select (is_repeat signature choice) cards))

abbrev pub is_live : ℕ → Rule → Bool
is_live signature r = (r.rule_signature == signature) && not (is_revoked r.status)

-- `max(revoked_at)`
abbrev pub later_of : Option ℕ → Option ℕ → Option ℕ
later_of none u = u
later_of (some t) none = some t
later_of (some t) (some u) = some (if ltb t u then u else t)

pub last_revoked : ℕ → Rules → Option ℕ
last_revoked signature [] = none
last_revoked signature (r ∷ rules) =
    let rest = last_revoked signature rules in
    if (r.rule_signature == signature) && is_revoked r.status
    then later_of r.revoked_at rest
    else rest

pub eligible_after : Option ℕ → List AnsweredCard → List AnsweredCard
eligible_after none cards = cards
eligible_after (some t) cards = select (λ (c : AnsweredCard). ltb t c.answered_at) cards

abbrev pub card_ids : List AnsweredCard → List Uuid
card_ids [] = []
card_ids (c ∷ cards) = c.id ∷ card_ids cards

abbrev pub scope_of : RuleBasis → ℕ → CardChoice → RuleScope
scope_of basis sensitivity choice = record {
  situation_kind = basis.situation_kind;
  match_text = basis.match_text;
  choice_id = choice.choice_id;
  effect = choice.effect;
  sensitivity_scope = sensitivity;
}

abbrev pub proposal : Uuid → ℕ → ℕ → RuleScope → List AnsweredCard → Rule
proposal id now signature scope cards = record {
  id = id;
  scope = scope;
  rule_signature = signature;
  status = proposed;
  proposed_from_card_ids = card_ids cards;
  proposed_at = now;
  approved_by_user_id = none;
  approved_at = none;
  revoked_at = none;
}

abbrev pub too_few : List AnsweredCard → Bool
too_few cards = ltb (length cards) repeated_confirmations_for_proposal

module _ (card_rule_signature : RuleBasis → ℕ → ℕ) (rule_signature : RuleScope → ℕ) where
  -- The proposal and the rules with it, or none. The identifier is minted.
  pub propose_rule_if_repeated :
      Uuid
      → ℕ
      → Option RuleBasis
      → ℕ
      → CardChoice
      → List AnsweredCard
      → Rules
      → Option (Rule × Rules)
  propose_rule_if_repeated id now none sensitivity choice answered rules = none
  propose_rule_if_repeated id now (some basis) sensitivity choice answered rules =
      let cards = repeats (card_rule_signature basis sensitivity) choice answered in
      let scope = scope_of basis sensitivity choice in
      let signature = rule_signature scope in
      let eligible = eligible_after (last_revoked signature rules) cards in
      let new = proposal id now signature scope eligible in
      if effect_eq choice.effect keep_uncertain
      then none
      else if too_few cards
      then none
      else if any (is_live signature) rules
      then none
      else if too_few eligible
      then none
      else some (new, new ∷ rules)
