-- ===== src/Review/Rules/Effect.antt =====
-- packages/review/src/rules.ts: only an approved rule answers a card, and a revoked one no longer.
use uni.Prelude.{
  ℕ, Bool, true, ◌&&◌, ◌||◌, List, [], ◌∷◌, map, Option, none, some, ◌≡◌, ◌≢◌, inl, inr, refl, sym,
  ap, ◌∙◌, arith, Has, Bool-cases, Option-cases, ==_iff, select, find, Uuid,
}
use mathlib.Core.Path.{subst}
use uni.Prelude.Sorting.{sort, Has-sort}
use uni.Review.Rules.{
  approved, revoked, is_proposed, is_approved, RuleBasis, CardChoice, Rule, Rules, ok, has_id,
  found, read_learned_rule, revoke_row, revoke_learned_rule, newer, is_applicable, is_choice_of,
  with_choice, first_with_choice, approved_rule_for,
}
use uni.Review.Rules.Lifecycle.{after_revoke}

Has-select_sound :
    {A : Type 0} (p : A → Bool) (xs : List A) (x : A)
    → Has x (select p xs)
    → Has x xs × (p x ≡ true)
Has-select_sound p [] x h = absurd h
Has-select_sound p (y ∷ ys) x h = ground (arith, Has-select_sound p ys x)

find_sound :
    {A : Type 0} (p : A → Bool) (xs : List A) (x : A) → find p xs ≡ some x → Has x xs × (p x ≡ true)
find_sound p [] x h = cc
find_sound p (y ∷ ys) x h = ground (arith, find_sound p ys x)

first_sound :
    (choices : List CardChoice) (rules : Rules) {r : Rule} {c : CardChoice}
    → first_with_choice choices rules ≡ some (r, c)
    → Has r rules × (Has c choices × (is_choice_of r.scope c ≡ true))
unfolding first_with_choice
first_sound choices [] e = cc
first_sound choices (k ∷ rules) {r} {c} e =
    with_first (find (is_choice_of k.scope) choices) refl e (first_sound choices rules)
  where
    with_first :
        (o : Option CardChoice)
        → find (is_choice_of k.scope) choices ≡ o
        → with_choice k o (first_with_choice choices rules) ≡ some (r, c)
        → (first_with_choice choices rules ≡ some (r, c)
            → Has r rules × (Has c choices × (is_choice_of r.scope c ≡ true)))
        → Has r (k ∷ rules) × (Has c choices × (is_choice_of r.scope c ≡ true))
    with_first none f h later = let (m, rest) = later h in (inr m, rest)
    with_first (some d) f h later =
        let (m, q) = find_sound (is_choice_of k.scope) choices d f in
        let (same, same') = pair_eq h in
        (
          inl (sym same),
          (
            subst (λ z. Has z choices) same' m,
            subst (λ (z : Rule). is_choice_of z.scope c ≡ true) same
                (subst (λ z. is_choice_of k.scope z ≡ true) same' q),
          ),
        )
      where
        pair_eq :
            {a b : Rule} {u v : CardChoice}
            → ◌≡◌ {A = Option (Rule × CardChoice)} (some (a, u)) (some (b, v))
            → (a ≡ b) × (u ≡ v)
        pair_eq h = (cc, cc)

-- A card is answered by a rule only if that rule is one of the table, is approved, was made for the
-- same kind of situation, the same text and the same sensitivity as the card, and chooses one of the
-- choices that the card offers, with the same effect.
pub approved_rule_for-approved :
    (basis : RuleBasis) (sensitivity : ℕ) (choices : List CardChoice) (rules : Rules) {r : Rule}
    {c : CardChoice}
    → approved_rule_for (some basis) sensitivity choices rules ≡ some (r, c)
    → Has r rules
      × (r.status ≡ approved)
      × (r.scope.situation_kind ≡ basis.situation_kind)
      × (r.scope.match_text ≡ basis.match_text)
      × (r.scope.sensitivity_scope ≡ sensitivity)
      × Has c choices
      × (c.choice_id ≡ r.scope.choice_id)
      × (c.effect ≡ r.scope.effect)
unfolding approved_rule_for is_applicable
approved_rule_for-approved basis sensitivity choices rules {r} {c} e =
    let applicable = select (is_applicable basis sensitivity) rules in
    let (m, (there, q)) = first_sound choices (sort newer applicable) e in
    let (here, p) =
      Has-select_sound (is_applicable basis sensitivity) rules r (Has-sort newer applicable r m) in
    (
      here,
      ground arith,
      ground arith,
      ground arith,
      ground arith,
      there,
      ground arith,
      ground arith,
    )

revoked_row :
    (id now : ℕ) (k : Rule)
    → (revoke_row id now k).id ≡ id
    → (revoke_row id now k).status ≢ approved
unfolding revoke_row
revoked_row id now k i a =
    elim (Bool-cases (has_id id k && (is_proposed k.status || is_approved k.status))) [
      | inl e ↦ let s : revoked ≡ approved = rw e at a in cc
      | inr e ↦
          let same : k.status ≡ approved = rw e at a in
          let same_id : k.id ≡ id = rw e at i in ground arith
    ]

Has-map_sound :
    (f : Rule → Rule) (rules : Rules) (r : Rule)
    → Has r (map f rules)
    → (k : Rule) × Has k rules × (r ≡ f k)
Has-map_sound f [] r h = absurd h
Has-map_sound f (k ∷ rules) r (inl e) = (k, inl refl, e)
Has-map_sound f (k ∷ rules) r (inr h) = let (j, m, e) = Has-map_sound f rules r h in (j, inr m, e)

-- The primary key, for one identifier.
abbrev pub HasOneRow : Uuid → Rules → Type 0
HasOneRow id rules = (r s : Rule) → Has r rules → Has s rules → r.id ≡ id → s.id ≡ id → r ≡ s

already :
    (id now : ℕ) (rules : Rules) {k : Rule} {rules' : Rules} (r : Rule)
    → revoke_learned_rule id now rules ≡ ok (k, rules')
    → HasOneRow id rules
    → ((z : Rule) → read_learned_rule id rules ≡ ok z → z.status ≡ revoked)
    → Has r rules
    → r.id ≡ id
    → r.status ≡ revoked
unfolding revoke_learned_rule read_learned_rule
already id now rules {k} {rules'} r e one h m i = elim (Option-cases (find (has_id id) rules)) [
  | inl none_there ↦ let bad = rw none_there at e in cc
  | inr (z, there) ↦
      let (n, q) = find_sound (has_id id) rules z there in
      let same = one z r n m ((==_iff z.id id).0 q) i in
      sym (ap (λ (y : Rule). y.status) same) ∙ h z (ap found there)
]

-- Once a rule is revoked, no card is answered by it.
pub revoke_learned_rule-no_effect :
    (id now : ℕ) (rules : Rules) {k : Rule} {rules' : Rules}
    → HasOneRow id rules
    → revoke_learned_rule id now rules ≡ ok (k, rules')
    → (basis : RuleBasis) (sensitivity : ℕ) (choices : List CardChoice) {r : Rule} {c : CardChoice}
    → approved_rule_for (some basis) sensitivity choices rules' ≡ some (r, c)
    → r.id ≢ id
revoke_learned_rule-no_effect id now rules one e basis sensitivity choices {r} e' i =
    let (here, is_app, _, _, _, _, _, _) =
      approved_rule_for-approved basis sensitivity choices _ e' in
    elim (after_revoke id now rules e) [
      | inl (same, h) ↦
          let rev = already id now rules r e one h (subst (Has r) (sym same) here) i in cc
      | inr same ↦
          let (j, m, q) =
            Has-map_sound (revoke_row id now) rules r (subst (Has r) (sym same) here) in
          revoked_row id now j (sym (ap (λ (z : Rule). z.id) q) ∙ i)
            (sym (ap (λ (z : Rule). z.status) q) ∙ is_app)
    ]
