-- ===== src/Capabilities/Obligations.antt =====
-- packages/capabilities/src/obligations.ts: the arithmetic over allocations that were read, the
-- conflicts in a slot, and the answer at a declared risk. The frames, roles and slot values come
-- from queries, which are not modelled here. A frame identifier is a text, since the arithmetic
-- uses it as the key of a payment that has no reference.
pub mod Conflict
pub mod Balance
pub mod Answers
pub mod Currencies
mod Tests
use uni.Prelude.{
  ℕ, Bool, true, false, ◌&&◌, ◌||◌, not, List, [], ◌∷◌, ◌++◌, map, Option, none, some,
  if◌then◌else◌, ltb, leb, ◌==◌, length, select, all,
}
use uni.Prelude.Sorting.{sort}
use uni.Capabilities.Decimal.{Text}
use uni.Capabilities.Money.{
  Money, Result, ok, err, schema_refused, ◌>>=◌, text_eq, sum_money, subtract_money, money_key,
}
use uni.Capabilities.Canonical.{SlotValue}
use uni.Capabilities.Values.{read_money}

-- A priced value of the slot: the entries of `priced`.
pub record Priced : Type 0 where
  pub value : SlotValue
  pub money : Money

priced_with : SlotValue → Option Money → List Priced → List Priced
priced_with v none rest = rest
priced_with v (some m) rest = record { value = v; money = m } ∷ rest

pub priced : List SlotValue → List Priced
unfolding priced_with
priced [] = []
priced (v ∷ vs) = priced_with v (read_money v.normalized_value) (priced vs)

abbrev pub has_text : List Text → Text → Bool
has_text [] t = false
has_text (s ∷ ss) t = text_eq s t || has_text ss t

-- The keys of the set, each once.
pub distinct_keys : List Priced → Result (List Text)
distinct_keys [] = ok []
distinct_keys (p ∷ ps) = do
  key ← money_key p.money
  rest ← distinct_keys ps
  ok (if has_text rest key then rest else key ∷ rest)

-- What `amountConflictSchema` admits: at most 50 propositions, and of each at most 200 claims of at
-- most 20 origins.
abbrev pub is_reportable : Priced → Bool
is_reportable p = leb (length p.value.claim_ids) 200 && leb (length p.value.claim_origins) 20

abbrev pub is_conflict_report : List Priced → Bool
is_conflict_report entries = leb (length entries) 50 && all is_reportable entries

conflict_of : List Priced → List Text → Result (Option (List Priced))
conflict_of entries keys =
    if ltb (length keys) 2
    then ok none
    else if is_conflict_report entries
    then ok (some entries)
    else err schema_refused

-- The propositions that disagree, none where fewer than two amounts stand.
pub amount_conflict : List SlotValue → Result (Option (List Priced))
unfolding conflict_of
amount_conflict values = distinct_keys (priced values) >>= conflict_of (priced values)

pub record AllocationReading : Type 0 where
  pub allocation_frame_instance_id : Text
  pub allocated : Option Money
  pub payment_reference : Option Text
  pub payment_total : Option Money
  pub conflict : Option (List Priced)

pub record CanonicalState : Type 0 where
  pub principal : Option Money
  pub principal_conflict : Option (List Priced)
  pub allocations : List AllocationReading
  pub advisory_coverage : List ℕ

pub record ObligationArithmetic : Type 0 where
  pub total_canonical_allocation : Money
  pub remaining_amount : Option Money
  pub unclassified_remainder : Option Money
  pub currency_mismatch_allocation_ids : List Text

-- `'XXX'`
abbrev pub no_currency : Text
no_currency = b'X' ∷ b'X' ∷ b'X' ∷ []

cons_some : Option Money → List Money → List Money
cons_some none ms = ms
cons_some (some m) ms = m ∷ ms

pub allocated_of : List AllocationReading → List Money
unfolding cons_some
allocated_of [] = []
allocated_of (a ∷ bs) = cons_some a.allocated (allocated_of bs)

pub currency_of : Option Money → List Money → Text
currency_of (some p) allocated = p.currency
currency_of none [] = no_currency
currency_of none (m ∷ ms) = m.currency

abbrev pub in_currency : Text → Money → Bool
in_currency code m = text_eq m.currency code

abbrev pub is_mismatched : Text → AllocationReading → Bool
is_mismatched code a = elim a.allocated [ none ↦ false | some m ↦ not (in_currency code m) ]

-- One entry of `byPayment`.
pub record Payment : Type 0 where
  pub key : Text
  pub total : Money
  pub allocated : List Money

pub add_to_payment : Text → Money → Money → List Payment → List Payment
add_to_payment key total allocated [] =
    record { key = key; total = total; allocated = allocated ∷ [] } ∷ []
add_to_payment key total allocated (p ∷ ps) =
    if text_eq p.key key
    then record p { allocated = p.allocated ++ allocated ∷ [] } ∷ ps
    else p ∷ add_to_payment key total allocated ps

abbrev pub payment_key : AllocationReading → Text
payment_key a = elim a.payment_reference [ none ↦ a.allocation_frame_instance_id | some r ↦ r ]

-- One round of the loop over the allocations; a `continue` leaves the map as it was.
pub by_payment_step : Text → Option Money → Option Money → List Payment → List Payment
by_payment_step key (some total) (some allocated) ps =
    if text_eq total.currency allocated.currency then add_to_payment key total allocated ps else ps
by_payment_step key _ _ ps = ps

pub by_payment : List Payment → List AllocationReading → List Payment
by_payment ps [] = ps
by_payment ps (a ∷ bs) =
    by_payment (by_payment_step (payment_key a) a.payment_total a.allocated ps) bs

-- `left < right` on texts.
unfoldable pub text_lt : Text → Text → Bool
text_lt s [] = false
text_lt [] (d ∷ t) = true
text_lt (c ∷ s) (d ∷ t) = if c == d then text_lt s t else ltb c d

abbrev pub key_before : Payment → Payment → Bool
key_before p q = text_lt p.key q.key

abbrev pub starts_with_minus : Text → Bool
starts_with_minus [] = false
starts_with_minus (c ∷ s) = c == b'-'

pub add_surplus : Option Money → Money → Result (Option Money)
add_surplus none surplus = ok (some surplus)
add_surplus (some r) surplus = sum_money (r ∷ surplus ∷ []) surplus.currency >>= λ m. ok (some m)

pub remainder_from : Option Money → List Payment → Result (Option Money)
remainder_from remainder [] = ok remainder
remainder_from remainder (p ∷ ps) = do
  spent ← sum_money p.allocated p.total.currency
  surplus ← subtract_money p.total spent
  next ← (if starts_with_minus surplus.amount then ok remainder else add_surplus remainder surplus)
  remainder_from next ps

pub remaining : Option Money → Money → Result (Option Money)
remaining none total = ok none
remaining (some principal) total = subtract_money principal total >>= λ m. ok (some m)

abbrev pub state_currency : CanonicalState → Text
state_currency s = currency_of s.principal (allocated_of s.allocations)

pub compute_obligation_arithmetic : CanonicalState → Result ObligationArithmetic
compute_obligation_arithmetic state =
    let currency = state_currency state in
    do
      total ← sum_money (select (in_currency currency) (allocated_of state.allocations)) currency
      left ← remaining state.principal total
      remainder ← remainder_from none (sort key_before (by_payment [] state.allocations))
      ok (record {
        total_canonical_allocation = total;
        remaining_amount = left;
        unclassified_remainder = remainder;
        currency_mismatch_allocation_ids =
            map (λ a. a.allocation_frame_instance_id)
              (select (is_mismatched currency) state.allocations);
      })

pub data Risk : Type 0 where
  low medium high : Risk

pub data BlockedReason : Type 0 where
  over_conflicting_slot over_incomplete_projection across_currencies : BlockedReason

cons_conflict : Option (List Priced) → List (List Priced) → List (List Priced)
cons_conflict none cs = cs
cons_conflict (some c) cs = c ∷ cs

allocation_conflicts : List AllocationReading → List (List Priced)
unfolding cons_conflict
allocation_conflicts [] = []
allocation_conflicts (a ∷ bs) = cons_conflict a.conflict (allocation_conflicts bs)

pub conflicts_of : Option (List Priced) → List AllocationReading → List (List Priced)
unfolding cons_conflict allocation_conflicts
conflicts_of principal_conflict allocations =
    cons_conflict principal_conflict (allocation_conflicts allocations)

abbrev pub is_high : Risk → Bool
is_high high = true
is_high _ = false

pub blocked_reason : Risk → ℕ → ℕ → ℕ → Option BlockedReason
blocked_reason risk conflicts pending mismatches =
    if not (is_high risk)
    then none
    else if ltb 0 conflicts
    then some over_conflicting_slot
    else if ltb 0 pending
    then some over_incomplete_projection
    else if ltb 0 mismatches
    then some across_currencies
    else none

pub record ObligationCalculation : Type 0 where
  pub arithmetic : ObligationArithmetic
  pub principal : Option Money
  pub conflicts : List (List Priced)
  pub advisory_coverage_ignored : List ℕ
  pub blocked : Option BlockedReason
  pub is_complete : Bool

-- `request.pendingPrincipal` replaces the principal that was read.
pub with_principal : Option Money → CanonicalState → CanonicalState
with_principal none state = state
with_principal (some m) state = record state { principal = some m }

-- `pending` is the number of pending assertions of the request.
pub calculate_obligation : CanonicalState → Risk → ℕ → Option Money → Result ObligationCalculation
calculate_obligation state risk pending pending_principal =
    let effective = with_principal pending_principal state in
    let conflicts = conflicts_of state.principal_conflict state.allocations in
    (compute_obligation_arithmetic effective >>= λ arithmetic. ok (record {
      arithmetic = arithmetic;
      principal = effective.principal;
      conflicts = conflicts;
      advisory_coverage_ignored = state.advisory_coverage;
      blocked =
          blocked_reason risk (length conflicts) pending
            (length arithmetic.currency_mismatch_allocation_ids);
      is_complete = pending == 0;
    }))
