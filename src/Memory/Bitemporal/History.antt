-- ===== src/Memory/Bitemporal/History.antt =====
-- packages/memory/src/bitemporal.ts: recording a version rewrites no answer that was given before.
use uni.Prelude.{
  ==_iff, ℕ, ◌≤◌, ◌<◌, Bool, true, false, ◌&&◌, List, [], ◌∷◌, map, Option, none, some, ◌≡◌, ◌≢◌,
  ◌⊎◌, inl, inr, refl, sym, ◌∙◌, arith, All, Bool-cases, if◌then◌else◌, select, ◌==◌, length, Uuid,
}
use mathlib.Core.Path.{subst}
use uni.Memory.Bitemporal.{
  Assessment, Store, StateRow, join, is_live, is_known_at, Result, ok, ◌>>=◌, or_else, latest,
  later_of, check_knowledge, NewVersion, close, version_row, append_version, found,
  record_belief_state_version,
}

-- The versions of a proposition that one knowledge time sees.
abbrev pub versions_at : Uuid → ℕ → List Assessment → List Assessment
versions_at p k assessments =
    select (λ (a : Assessment). (a.proposition_id == p) && is_known_at k a) assessments

-- Nothing about the proposition is recorded or superseded after `t`.
abbrev pub IsBefore : ℕ → Uuid → Assessment → Type 0
IsBefore t p a =
    a.proposition_id ≡ p
    → (a.recorded_at ≤ t) × ((s : ℕ) → a.superseded_recorded_at ≡ some s → s ≤ t)

abbrev pub last_time : Option ℕ → ℕ
last_time none = 0
last_time (some t) = t

-- The history of a proposition: its latest version is not in the future, windows end by the time the
-- latest version was recorded, and each knowledge time sees one version at most.
pub record IsHistory (now : ℕ) (p : Uuid) (assessments : List Assessment) : Type 0 where
  pub in_past : last_time (latest p assessments) ≤ now
  pub bounded : All (IsBefore (last_time (latest p assessments)) p) assessments
  pub one_version : (k : ℕ) → length (versions_at p k assessments) ≤ 1

close_same :
    (q at : ℕ) (a : Assessment)
    → ((close q at a).proposition_id ≡ a.proposition_id)
      × ((close q at a).recorded_at ≡ a.recorded_at)
unfolding close
close_same q at a = ground arith

latest-close :
    (p q at : ℕ) (assessments : List Assessment)
    → latest p (map (close q at) assessments) ≡ latest p assessments
unfolding latest
latest-close p q at [] = refl
latest-close p q at (a ∷ assessments) =
    let (same, time) = close_same q at a in rw (same, time, latest-close p q at assessments) refl

-- For another proposition, closing changes nothing.
versions_other :
    (p q at k : ℕ) (assessments : List Assessment)
    → p ≢ q
    → length (versions_at p k (map (close q at) assessments)) ≡ length (versions_at p k assessments)
unfolding close
versions_other p q at k [] n = refl
versions_other p q at k (a ∷ assessments) n = ground (arith, versions_other p q at k assessments n)

-- Before the closing instant, closing changes nothing either.
versions_earlier :
    (p at k : ℕ) (assessments : List Assessment)
    → k < at
    → length (versions_at p k (map (close p at) assessments)) ≡ length (versions_at p k assessments)
unfolding close
versions_earlier p at k [] lt = refl
versions_earlier p at k (a ∷ assessments) lt =
    ground (arith, versions_earlier p at k assessments lt)

-- From the closing instant on, every version is superseded.
seen_later :
    (p at k t : ℕ) (a : Assessment) (o : Option ℕ)
    → a.superseded_recorded_at ≡ o
    → t ≤ at
    → at ≤ k
    → IsBefore t p a
    → (((close p at a).proposition_id == p) && is_known_at k (close p at a)) ≡ false
unfolding close
seen_later p at k t a none e le le' h = ground arith
seen_later p at k t a (some s) e le le' h = elim (Bool-cases (a.proposition_id == p)) [
  | inr n ↦ ground arith
  | inl y ↦ let ended = (h ((==_iff a.proposition_id p).0 y)).1 s e in ground arith
]

versions_later :
    (p at k t : ℕ) (assessments : List Assessment)
    → t ≤ at
    → at ≤ k
    → All (IsBefore t p) assessments
    → length (versions_at p k (map (close p at) assessments)) ≡ 0
versions_later p at k t [] le le' b = refl
versions_later p at k t (a ∷ assessments) le le' (h, b) =
    rw (seen_later p at k t a a.superseded_recorded_at refl le le' h)
      (versions_later p at k t assessments le le' b)

-- A later bound, and what closing leaves bounded.
All-later :
    (t u p : ℕ) (assessments : List Assessment)
    → t ≤ u
    → All (IsBefore t p) assessments
    → All (IsBefore u p) assessments
All-later t u p [] le b = tt
All-later t u p (a ∷ assessments) le (h, b) = (
  λ e. let (r, s) = h e in (omega arith, λ i q. let j = s i q in omega arith),
  All-later t u p assessments le b,
)

close_bounded :
    (t q at p : ℕ) (a : Assessment)
    → (q ≡ p → at ≤ t)
    → IsBefore t p a
    → IsBefore t p (close q at a)
unfolding close
close_bounded t q at p a le h = elim (Bool-cases ((a.proposition_id == q) && is_live a)) [
  | inr e ↦ rw e h
  | inl e ↦ rw e (λ i. ((h i).0, λ s same. let le' = le (ground arith) in ground arith))
]

All-close :
    (t q at p : ℕ) (assessments : List Assessment)
    → (q ≡ p → at ≤ t)
    → All (IsBefore t p) assessments
    → All (IsBefore t p) (map (close q at) assessments)
All-close t q at p [] le b = tt
All-close t q at p (a ∷ assessments) le (h, b) =
    (close_bounded t q at p a le h, All-close t q at p assessments le b)

-- The checks of a stated knowledge time, and that of the clock.
checked :
    (now : ℕ) (last stated : Option ℕ)
    → check_knowledge now last stated ≡ ok tt
    → last_time last ≤ now
    → (last_time last ≤ or_else stated now) × (or_else stated now ≤ now)
checked now last stated e le = ground arith

pub passed :
    (r : Result (Unit {0})) {A : Type 0} (k : Result A) {a : A}
    → (r >>= λ _. k) ≡ ok a
    → (r ≡ ok tt) × (k ≡ ok a)
passed r k e = ground arith

last_push :
    (v : Assessment) (p at : ℕ) (assessments : List Assessment)
    → v.proposition_id ≡ p
    → v.recorded_at ≡ at
    → last_time (latest p assessments) ≤ at
    → last_time (latest p (v ∷ map (close p at) assessments)) ≡ at
unfolding latest
last_push v p at assessments own time le =
    max (latest p (map (close p at) assessments)) (rw (latest-close p p at assessments) le)
  where
    max :
        (o : Option ℕ)
        → last_time o ≤ at
        → last_time (if v.proposition_id == p then some (later_of v.recorded_at o) else o) ≡ at
    max o h = ground arith

push_own :
    (now : ℕ) (v : Assessment) (p at : ℕ) (assessments : List Assessment)
    → v.proposition_id ≡ p
    → v.recorded_at ≡ at
    → v.superseded_recorded_at ≡ none
    → last_time (latest p assessments) ≤ at
    → at ≤ now
    → IsHistory now p assessments
    → IsHistory now p (v ∷ map (close p at) assessments)
push_own now v p at assessments own time live le past h =
    let last = last_push v p at assessments own time le in
    record {
      in_past = rw last past;
      bounded =
          subst (λ t. All (IsBefore t p) (v ∷ map (close p at) assessments)) (sym last)
            (
              λ i. (omega (arith, time), λ s e. absurd (clash e)),
              All-close at p at p assessments (λ i. omega arith)
                  (All-later _ at p assessments le h.bounded),
            );
      one_version = λ k. elim (compare_times k) [
        | inl lt ↦ early k lt (versions_earlier p at k assessments lt) (h.one_version k)
        | inr ge ↦
            late k
              (versions_later p at k (last_time (latest p assessments)) assessments le ge h.bounded)
      ];
    }
  where
    clash : {s : ℕ} → v.superseded_recorded_at ≡ some s → ⊥
    clash e = cc

    compare_times : (k : ℕ) → (k < at) ⊎ (at ≤ k)
    compare_times k = ground arith

    early :
        (k : ℕ)
        → k < at
        → length (versions_at p k (map (close p at) assessments))
          ≡ length (versions_at p k assessments)
        → length (versions_at p k assessments) ≤ 1
        → length (versions_at p k (v ∷ map (close p at) assessments)) ≤ 1
    early k lt same le' = ground arith

    late :
        (k : ℕ)
        → length (versions_at p k (map (close p at) assessments)) ≡ 0
        → length (versions_at p k (v ∷ map (close p at) assessments)) ≤ 1
    late k same = ground arith

push_other :
    (now : ℕ) (v : Assessment) (p q at : ℕ) (assessments : List Assessment)
    → v.proposition_id ≡ q
    → p ≢ q
    → IsHistory now p assessments
    → IsHistory now p (v ∷ map (close q at) assessments)
unfolding latest
push_other now v p q at assessments own other h =
    let last : latest p (v ∷ map (close q at) assessments) ≡ latest p assessments =
      skipped (latest p (map (close q at) assessments)) (latest-close p q at assessments) in
    record {
      in_past = rw last h.in_past;
      bounded =
          subst (λ o. All (IsBefore (last_time o) p) (v ∷ map (close q at) assessments)) (sym last)
            (
              λ i. absurd (other (sym i ∙ own)),
              All-close _ q at p assessments (λ i. absurd (other (sym i))) h.bounded,
            );
      one_version = λ k. unseen k (versions_other p q at k assessments other) (h.one_version k);
    }
  where
    skipped :
        (o : Option ℕ)
        → o ≡ latest p assessments
        → (if v.proposition_id == p then some (later_of v.recorded_at o) else o)
          ≡ latest p assessments
    skipped o e = ground arith

    unseen :
        (k : ℕ)
        → length (versions_at p k (map (close q at) assessments))
          ≡ length (versions_at p k assessments)
        → length (versions_at p k assessments) ≤ 1
        → length (versions_at p k (v ∷ map (close q at) assessments)) ≤ 1
    unseen k same le' = ground arith

append-IsHistory :
    (id now : ℕ) (n : NewVersion) (p : Uuid) (assessments : List Assessment)
    → check_knowledge now (latest n.proposition_id assessments) n.knowledge_time ≡ ok tt
    → IsHistory now n.proposition_id assessments
    → IsHistory now p assessments
    → IsHistory now p (append_version id now n assessments)
unfolding append_version version_row
append-IsHistory id now n p assessments e own h = elim (Bool-cases (n.proposition_id == p)) [
  | inl y ↦
      let same = (==_iff n.proposition_id p).0 y in
      let (le, past) =
        checked now (latest n.proposition_id assessments) n.knowledge_time e own.in_past in
      subst (λ z. IsHistory now z (append_version id now n assessments)) same
        (push_own now (version_row id now n) n.proposition_id _ assessments refl refl refl le past
          own)
  | inr y ↦
      push_other now (version_row id now n) p n.proposition_id _ assessments refl
        (λ i. differ ((==_iff n.proposition_id p).1 (sym i)) y) h
]
  where
    differ : {b : Bool} → b ≡ true → b ≡ false → ⊥
    differ u w = cc

abbrev with_assessments : Store → List Assessment → StateRow → Result (StateRow × Store)
with_assessments m assessments row = ok (row, record m { assessments = assessments })

pub stored :
    (m : Store) (assessments : List Assessment) (r : Result StateRow) {row : StateRow} {m' : Store}
    → (r >>= with_assessments m assessments) ≡ ok (row, m')
    → (r ≡ ok row) × (m' ≡ record m { assessments = assessments })
stored m assessments r k = ground arith

-- A version that is recorded keeps the history of every proposition: the times of its versions are
-- in the past and do not move backwards, and each knowledge time sees one version of it at most.
pub record_belief_state_version-IsHistory :
    (id now : ℕ) (n : NewVersion) (m : Store) {row : StateRow} {m' : Store}
    → record_belief_state_version id now n m ≡ ok (row, m')
    → ((p : Uuid) → IsHistory now p m.assessments)
    → (p : Uuid) → IsHistory now p m'.assessments
unfolding record_belief_state_version
record_belief_state_version-IsHistory id now n m {row} {m'} e h p =
    let (c, rest) =
      passed (check_knowledge now (latest n.proposition_id m.assessments) n.knowledge_time) _ e in
    let (given, same) =
      stored m (append_version id now n m.assessments)
        (found (join m.propositions m.slots (version_row id now n))) rest in
    subst (λ (z : Store). IsHistory now p z.assessments) (sym same)
      (append-IsHistory id now n p m.assessments c (h n.proposition_id) (h p))
