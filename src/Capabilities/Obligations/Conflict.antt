-- ===== src/Capabilities/Obligations/Conflict.antt =====
-- When `amountConflict` of packages/capabilities/src/obligations.ts reports a disagreement.
use uni.Prelude.{
  ◌<◌, true, false, List, [], ◌∷◌, none, ◌≡◌, ◌↔◌, ◌∙◌, inl, inr, arith, Has, All, refl, sym,
  Bool-cases, Option-cases, length, ap,
}
use mathlib.Core.Path.{subst}
use uni.Capabilities.Decimal.{Text}
use uni.Capabilities.Money.{ok, text_eq, same_money, money_key}
use uni.Capabilities.Money.Keys.{IsMoney, text_eq_iff, money_key-same_money, key_of}
use uni.Capabilities.Canonical.{SlotValue}
use uni.Capabilities.Values.{read_money}
use uni.Capabilities.Values.Readings.{read_money-IsMoney}
use uni.Capabilities.Obligations.{
  Priced, priced, priced_with, has_text, distinct_keys, conflict_of, amount_conflict,
}

-- Any two entries state the same money.
abbrev pub AllSame : List Priced → Type 0
AllSame ps = (p q : Priced) → Has p ps → Has q ps → same_money p.money q.money ≡ ok true

abbrev ArePriced : List Priced → Type 0
ArePriced ps = All (λ p. IsMoney p.money) ps

priced-ArePriced : (vs : List SlotValue) → ArePriced (priced vs)
unfolding priced priced_with
priced-ArePriced [] = tt
priced-ArePriced (v ∷ vs) = elim (Option-cases (read_money v.normalized_value)) [
  | inl e ↦ rw e (priced-ArePriced vs)
  | inr (m, e) ↦ rw e (read_money-IsMoney v.normalized_value e, priced-ArePriced vs)
]

texts_found : (ts : List Text) (t : Text) → has_text ts t ≡ true → Has t ts
texts_found [] t h = cc
texts_found (s ∷ ts) t h = elim (Bool-cases (text_eq s t)) [
  | inl e ↦ inl (sym ((text_eq_iff s t).0 e))
  | inr e ↦ inr (texts_found ts t (ground arith))
]

Has→has_text : (ts : List Text) (t : Text) → Has t ts → has_text ts t ≡ true
Has→has_text [] t h = absurd h
Has→has_text (s ∷ ts) t (inl e) = rw ((text_eq_iff s t).1 (sym e)) refl
Has→has_text (s ∷ ts) t (inr h) = ground (arith, Has→has_text ts t h)

abbrev IsNodup : List Text → Type 0
IsNodup [] = Unit
IsNodup (t ∷ ts) = (has_text ts t ≡ false) × IsNodup ts

-- The keys of the entries, each once, and each the key of an entry.
record AreKeys (ps : List Priced) (ks : List Text) : Type 0 where
  returned : distinct_keys ps ≡ ok ks
  complete : (p : Priced) → Has p ps → (k : Text) × (money_key p.money ≡ ok k) × Has k ks
  sound : (k : Text) → Has k ks → (p : Priced) × Has p ps × (money_key p.money ≡ ok k)
  once : IsNodup ks

AreKeys-cons :
    (p : Priced) (ps : List Priced) (key : Text) (ks : List Text)
    → money_key p.money ≡ ok key
    → AreKeys ps ks
    → (ks' : List Text) × AreKeys (p ∷ ps) ks'
unfolding distinct_keys
AreKeys-cons p ps key ks e h = elim (Bool-cases (has_text ks key)) [
  | inl old ↦ (
    ks,
    record {
      returned = rw (e, h.returned, old) refl;
      complete = λ q k. elim k [
        | inl same ↦ (key, ap (λ (z : Priced). money_key z.money) same ∙ e, texts_found ks key old)
        | inr r ↦ h.complete q r
      ];
      sound = λ k r. let (q, m, f) = h.sound k r in (q, inr m, f);
      once = h.once;
    },
  )
  | inr new ↦ (
    key ∷ ks,
    record {
      returned = rw (e, h.returned, new) refl;
      complete = λ q k. elim k [
        | inl same ↦ (key, ap (λ (z : Priced). money_key z.money) same ∙ e, inl refl)
        | inr r ↦ let (a, b, c) = h.complete q r in (a, b, inr c)
      ];
      sound = λ k r. elim r [
        | inl same ↦ (p, inl refl, e ∙ ap ok (sym same))
        | inr r' ↦ let (q, m, f) = h.sound k r' in (q, inr m, f)
      ];
      once = (new, h.once);
    },
  )
]

keys_of : (ps : List Priced) → ArePriced ps → (ks : List Text) × AreKeys ps ks
unfolding distinct_keys
keys_of [] h =
    ([], record { returned = refl; complete = λ p k. absurd k; sound = λ k r. absurd r; once = tt })
keys_of (p ∷ ps) (m, h) =
    let (ks, rest) = keys_of ps h in AreKeys-cons p ps _ ks (key_of p.money m) rest

IsMoney_of_Has : (ps : List Priced) (p : Priced) → ArePriced ps → Has p ps → IsMoney p.money
IsMoney_of_Has [] p h k = absurd k
IsMoney_of_Has (q ∷ ps) p (m, h) (inl e) = subst (λ (z : Priced). IsMoney z.money) (sym e) m
IsMoney_of_Has (q ∷ ps) p (m, h) (inr k) = IsMoney_of_Has ps p h k

-- In a list of fewer than two keys all keys are the same.
few_keys : (ks : List Text) (a b : Text) → length ks < 2 → Has a ks → Has b ks → a ≡ b
few_keys [] a b h p q = absurd p
few_keys (k ∷ []) a b h (inl p) (inl q) = p ∙ sym q
few_keys (k ∷ []) a b h (inl p) (inr q) = absurd q
few_keys (k ∷ []) a b h (inr p) q = absurd p
few_keys (k ∷ (l ∷ ks)) a b h p q = absurd (omega arith)

same_keys :
    (ks : List Text) → IsNodup ks → ((a b : Text) → Has a ks → Has b ks → a ≡ b) → length ks < 2
same_keys [] n h = omega arith
same_keys (k ∷ []) n h = omega arith
same_keys (k ∷ (l ∷ ks)) (fresh, n) h = absurd (clash (h k l (inl refl) (inr (inl refl))))
  where
    clash : k ≡ l → ⊥
    clash e = let old = Has→has_text (l ∷ ks) k (inl e) in cc

ok_injective : {a b : Text} → ok a ≡ ok b → a ≡ b
ok_injective h = cc

module _ (vs : List SlotValue) where
  few_iff : (ks : List Text) → AreKeys (priced vs) ks → (length ks < 2) ↔ AllSame (priced vs)
  few_iff ks h =
      let money = λ (p : Priced) (k : Has p (priced vs)).
        IsMoney_of_Has (priced vs) p (priced-ArePriced vs) k in
      (
        λ few p q a b.
            let (k, ke, km) = h.complete p a in
            let (l, le, lm) = h.complete q b in
            (money_key-same_money p.money q.money (money p a) (money q b)).0
              (ke ∙ ap ok (few_keys ks k l few km lm) ∙ sym le),
        λ same. same_keys ks h.once (λ k l a b.
            let (p, pm, pe) = h.sound k a in
            let (q, qm, qe) = h.sound l b in
            ok_injective (
              sym pe
              ∙ (money_key-same_money p.money q.money (money p pm) (money q qm)).1 (same p q pm qm)
              ∙ qe)),
      )

  conflict_of-none_iff :
      (ps : List Priced) (ks : List Text) → (conflict_of ps ks ≡ ok none) ↔ (length ks < 2)
  unfolding conflict_of
  conflict_of-none_iff ps ks = (λ h. ground arith, λ h. ground arith)

  -- No conflict is reported exactly when all the amounts of the slot state the same money, however
  -- they are spelled; values that are no money count for neither side.
  pub amount_conflict-none_iff : (amount_conflict vs ≡ ok none) ↔ AllSame (priced vs)
  unfolding amount_conflict
  amount_conflict-none_iff =
      let (ks, h) = keys_of (priced vs) (priced-ArePriced vs) in
      let (to, from) = few_iff ks h in
      let (out, back) = conflict_of-none_iff (priced vs) ks in
      (λ e. to (out (rw h.returned at e)), λ same. rw h.returned (back (from same)))
