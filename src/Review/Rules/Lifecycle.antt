-- ===== src/Review/Rules/Lifecycle.antt =====
-- packages/review/src/rules.ts: the constraints of migrations/0023 on the rules hold throughout their
-- lifecycle.
use uni.Prelude.{
  ℕ, suc, ◌≤◌, Bool, true, false, ◌&&◌, ◌||◌, List, [], ◌∷◌, map, Option, none, some, ◌≡◌, ◌≢◌, ◌⊎◌,
  inl, inr, refl, sym, ap, ◌∙◌, arith, All, Bool-cases, if◌then◌else◌, ltb, ◌==◌, ==_iff, select,
  any, length,
}
use mathlib.Core.Path.{subst}
use uni.Review.Rules.{
  RuleStatus, proposed, approved, revoked, is_proposed, is_approved, RuleBasis, CardChoice,
  RuleScope, Rule, Rules, AnsweredCard, Result, ok, err, ◌>>=◌, has_id, read_learned_rule, reread,
  approve_row, revoke_row, approve_from, revoke_from, approve_learned_rule, revoke_learned_rule,
  is_live, card_ids, proposal, too_few, scope_of, last_revoked, eligible_after, repeats,
  repeated_confirmations_for_proposal, propose_rule_if_repeated,
}

-- The CHECK constraints of a row.
pub record IsRule (r : Rule) : Type 0 where
  pub proposed_undecided :
      r.status ≡ proposed
      → (r.approved_at ≡ none) × (r.approved_by_user_id ≡ none) × (r.revoked_at ≡ none)
  pub approved_by_someone :
      r.status ≡ approved
      → (r.approved_at ≢ none) × (r.approved_by_user_id ≢ none) × (r.revoked_at ≡ none)
  pub revoked_dated : r.status ≡ revoked → r.revoked_at ≢ none
  pub repeated : 2 ≤ length r.proposed_from_card_ids

pub record IsRules (rules : Rules) : Type 0 where
  pub every_row : All IsRule rules
  pub one_live : (signature : ℕ) → length (select (is_live signature) rules) ≤ 1

approve_row-IsRule : (id actor now : ℕ) (r : Rule) → IsRule r → IsRule (approve_row id actor now r)
unfolding approve_row
approve_row-IsRule id actor now r h = elim (Bool-cases (has_id id r && is_proposed r.status)) [
  | inr e ↦ rw e h
  | inl e ↦ rw e (approving (ground arith))
]
  where
    approving :
        r.status ≡ proposed
        → IsRule (record r {
          status = approved;
          approved_by_user_id = some actor;
          approved_at = some now;
        })
    approving p = record {
      proposed_undecided = λ q. cc;
      approved_by_someone = λ q. (λ e. cc, λ e. cc, (h.proposed_undecided p).2);
      revoked_dated = λ q. cc;
      repeated = h.repeated;
    }

revoke_row-IsRule : (id now : ℕ) (r : Rule) → IsRule r → IsRule (revoke_row id now r)
unfolding revoke_row
revoke_row-IsRule id now r h =
    elim (Bool-cases (has_id id r && (is_proposed r.status || is_approved r.status))) [
      | inr e ↦ rw e h
      | inl e ↦ rw e (record {
        proposed_undecided = λ q. cc;
        approved_by_someone = λ q. cc;
        revoked_dated = λ q z. cc;
        repeated = h.repeated;
      })
    ]

All-map :
    (f : Rule → Rule) (rules : Rules)
    → ((r : Rule) → IsRule r → IsRule (f r))
    → All IsRule rules
    → All IsRule (map f rules)
All-map f [] h a = tt
All-map f (r ∷ rules) h (p, a) = (h r p, All-map f rules h a)

live-approve :
    (id actor now signature : ℕ) (rules : Rules)
    → length (select (is_live signature) (map (approve_row id actor now) rules))
      ≡ length (select (is_live signature) rules)
unfolding approve_row
live-approve id actor now signature [] = refl
live-approve id actor now signature (r ∷ rules) =
    same _ _ _ _ (is_live-approve r) (live-approve id actor now signature rules)
  where
    is_live-approve :
        (k : Rule) → is_live signature (approve_row id actor now k) ≡ is_live signature k
    is_live-approve k = ground arith

    same :
        {b c : Bool} (x y : Rule) (xs ys : Rules)
        → b ≡ c
        → length xs ≡ length ys
        → length (if b then x ∷ xs else xs) ≡ length (if c then y ∷ ys else ys)
    same x y xs ys e e' = ground arith

live-revoke :
    (id now signature : ℕ) (rules : Rules)
    → length (select (is_live signature) (map (revoke_row id now) rules))
      ≤ length (select (is_live signature) rules)
unfolding revoke_row
live-revoke id now signature [] = omega arith
live-revoke id now signature (r ∷ rules) =
    fewer _ _ _ _ (is_live-revoke r) (live-revoke id now signature rules)
  where
    is_live-revoke :
        (k : Rule) → is_live signature (revoke_row id now k) ≡ true → is_live signature k ≡ true
    is_live-revoke k e = ground arith

    fewer :
        {b c : Bool} (x y : Rule) (xs ys : Rules)
        → (b ≡ true → c ≡ true)
        → length xs ≤ length ys
        → length (if b then x ∷ xs else xs) ≤ length (if c then y ∷ ys else ys)
    fewer x y xs ys e e' = ground arith

abbrev with_rules : Rules → Rule → Result (Rule × Rules)
with_rules rules r = ok (r, rules)

reread_rules :
    (id : ℕ) (rules : Rules) {r : Rule} {rules' : Rules}
    → reread id rules ≡ ok (r, rules')
    → rules ≡ rules'
reread_rules id rules {r} {rules'} e = from_rule (read_learned_rule id rules) e
  where
    from_rule : (o : Result Rule) → (o >>= with_rules rules) ≡ ok (r, rules') → rules ≡ rules'
    from_rule o h = ground arith

after_approve :
    (id actor now : ℕ) (rules : Rules) {r : Rule} {rules' : Rules}
    → approve_learned_rule id actor now rules ≡ ok (r, rules')
    → (rules ≡ rules') ⊎ (map (approve_row id actor now) rules ≡ rules')
unfolding approve_learned_rule approve_from
after_approve id actor now rules {r} {rules'} e = from_rule (read_learned_rule id rules) e
  where
    from_status :
        (s : RuleStatus)
        → approve_from s id actor now rules ≡ ok (r, rules')
        → (rules ≡ rules') ⊎ (map (approve_row id actor now) rules ≡ rules')
    from_status proposed h = inr (reread_rules id (map (approve_row id actor now) rules) h)
    from_status approved h = inl (reread_rules id rules h)
    from_status revoked h = cc

    from_rule :
        (o : Result Rule)
        → (o >>= λ c. approve_from c.status id actor now rules) ≡ ok (r, rules')
        → (rules ≡ rules') ⊎ (map (approve_row id actor now) rules ≡ rules')
    from_rule (ok c) h = from_status c.status h
    from_rule (err c) h = cc

pub after_revoke :
    (id now : ℕ) (rules : Rules) {r : Rule} {rules' : Rules}
    → revoke_learned_rule id now rules ≡ ok (r, rules')
    → ((rules ≡ rules') × ((k : Rule) → read_learned_rule id rules ≡ ok k → k.status ≡ revoked))
      ⊎ (map (revoke_row id now) rules ≡ rules')
unfolding revoke_learned_rule revoke_from
after_revoke id now rules {r} {rules'} e = from_rule (read_learned_rule id rules) refl e
  where
    from_status :
        (k : Rule) (s : RuleStatus)
        → k.status ≡ s
        → read_learned_rule id rules ≡ ok k
        → revoke_from s id now rules ≡ ok (r, rules')
        → ((rules ≡ rules') × ((k : Rule) → read_learned_rule id rules ≡ ok k → k.status ≡ revoked))
          ⊎ (map (revoke_row id now) rules ≡ rules')
    from_status k proposed q g h = inr (reread_rules id (map (revoke_row id now) rules) h)
    from_status k approved q g h = inr (reread_rules id (map (revoke_row id now) rules) h)
    from_status k revoked q g h =
        inl (reread_rules id rules h, λ z gz. ap (λ (y : Rule). y.status) (ok_eq (sym gz ∙ g)) ∙ q)
      where
        ok_eq : {a b : Rule} → ok a ≡ ok b → a ≡ b
        ok_eq u = cc

    from_rule :
        (o : Result Rule)
        → read_learned_rule id rules ≡ o
        → (o >>= λ c. revoke_from c.status id now rules) ≡ ok (r, rules')
        → ((rules ≡ rules') × ((k : Rule) → read_learned_rule id rules ≡ ok k → k.status ≡ revoked))
          ⊎ (map (revoke_row id now) rules ≡ rules')
    from_rule (ok c) g h = from_status c c.status refl g h
    from_rule (err c) g h = cc

length-card_ids : (cards : List AnsweredCard) → length (card_ids cards) ≡ length cards
length-card_ids [] = refl
length-card_ids (c ∷ cards) = ap suc (length-card_ids cards)

none_live :
    (signature : ℕ) (rules : Rules)
    → any (is_live signature) rules ≡ false
    → length (select (is_live signature) rules) ≡ 0
none_live signature [] h = refl
none_live signature (r ∷ rules) h = ground (arith, none_live signature rules)

propose-IsRules :
    (id now signature : ℕ) (scope : RuleScope) (cards : List AnsweredCard) (rules : Rules)
    → too_few cards ≡ false
    → any (is_live signature) rules ≡ false
    → IsRules rules
    → IsRules (proposal id now signature scope cards ∷ rules)
propose-IsRules id now signature scope cards rules enough fresh h = record {
  every_row = (
    record {
      proposed_undecided = λ q. (refl, refl, refl);
      approved_by_someone = λ q. cc;
      revoked_dated = λ q. cc;
      repeated = rw (length-card_ids cards) (two (length cards) enough);
    },
    h.every_row,
  );
  one_live = λ s. elim (Bool-cases (signature == s)) [
    | inl e ↦ rw e (
        at_most (
          subst (λ z. length (select (is_live z) rules) ≡ 0) ((==_iff signature s).0 e)
            (none_live signature rules fresh)))
    | inr e ↦ rw e (h.one_live s)
  ];
}
  where
    two : (n : ℕ) → ltb n repeated_confirmations_for_proposal ≡ false → 2 ≤ n
    two n e = ground arith

    at_most : {n : ℕ} → n ≡ 0 → suc n ≤ 1
    at_most e = omega (arith, e)

abbrev answered : Rule → Rules → Option (Rule × Rules)
answered r rules = some (r, rules)

chosen :
    (a b c d : Bool) (new : Rule) {rules rules' : Rules} {r : Rule}
    → (if a
        then none
        else if b
        then none
        else if c
        then none
        else if d
        then none
        else answered new rules)
      ≡ some (r, rules')
    → (c ≡ false) × (d ≡ false) × (rules ≡ rules')
chosen a b c d new e = ground arith

module _ (card_rule_signature : RuleBasis → ℕ → ℕ) (rule_signature : RuleScope → ℕ) where
  -- One operation on the rules that succeeds, with any arguments.
  pub data Step (rules : Rules) : Rules → Type 0 where
    proposes :
        {rules' : Rules} {r : Rule} (id now : ℕ) (basis : Option RuleBasis) (sensitivity : ℕ)
        (choice : CardChoice) (cards : List AnsweredCard)
        → propose_rule_if_repeated card_rule_signature rule_signature id now basis sensitivity
            choice cards rules
          ≡ some (r, rules')
        → Step rules rules'
    approves :
        {rules' : Rules} {r : Rule} (id actor now : ℕ)
        → approve_learned_rule id actor now rules ≡ ok (r, rules')
        → Step rules rules'
    revokes :
        {rules' : Rules} {r : Rule} (id now : ℕ)
        → revoke_learned_rule id now rules ≡ ok (r, rules')
        → Step rules rules'

  pub data Reach (rules : Rules) : Rules → Type 0 where
    here : Reach rules rules
    next : {mid last : Rules} → Reach rules mid → Step mid last → Reach rules last

  Step-IsRules : {rules rules' : Rules} → Step rules rules' → IsRules rules → IsRules rules'
  unfolding propose_rule_if_repeated
  Step-IsRules {rules} (approves id actor now e) h = elim (after_approve id actor now rules e) [
    | inl same ↦ subst IsRules same h
    | inr same ↦ subst IsRules same (record {
      every_row =
          All-map (approve_row id actor now) rules (approve_row-IsRule id actor now) h.every_row;
      one_live = λ s. rw (live-approve id actor now s rules) (h.one_live s);
    })
  ]
  Step-IsRules {rules} (revokes id now e) h = elim (after_revoke id now rules e) [
    | inl (same, _) ↦ subst IsRules same h
    | inr same ↦ subst IsRules same (record {
      every_row = All-map (revoke_row id now) rules (revoke_row-IsRule id now) h.every_row;
      one_live = λ s. let le = live-revoke id now s rules in let le' = h.one_live s in omega arith;
    })
  ]
  Step-IsRules {rules} (proposes id now none sensitivity choice cards e) h = cc
  Step-IsRules {rules} (proposes id now (some basis) sensitivity choice cards e) h =
      let scope = scope_of basis sensitivity choice in
      let eligible =
        eligible_after (last_revoked (rule_signature scope) rules)
          (repeats (card_rule_signature basis sensitivity) choice cards) in
      let (fresh, enough, same) =
        chosen _ _ (any (is_live (rule_signature scope)) rules) (too_few eligible) _ e in
      subst IsRules same
        (propose-IsRules id now (rule_signature scope) scope eligible rules enough fresh h)

  -- In every table of rules that proposals, approvals and revocations can reach from the empty one, a
  -- rule in effect was approved by someone at some time and not revoked, a proposal is undecided, each
  -- rule stands on two answers at least, and no two live rules share a signature.
  pub Reach-IsRules : {rules : Rules} → Reach [] rules → IsRules rules
  Reach-IsRules here = record { every_row = tt; one_live = λ s. omega arith }
  Reach-IsRules (next r s) = Step-IsRules s (Reach-IsRules r)
