-- ===== src/Memory/Slots.antt =====
-- packages/memory/src/slots.ts: belief slots and propositions of one owner scope, and their index by
-- fingerprint. Both kinds of object are looked up, created and indexed in the same way, so the
-- operations stand once, for objects with a descriptor `D`: two descriptors are compared by their
-- canonical text, which is `same`, and `fingerprint` is the hash of a descriptor and a version.
-- `read` is the descriptor that a lookup reads back, from the index row or from the object, and
-- `belongs` is the further condition of the lookup of propositions.
pub mod Objects
pub mod Resolution
pub mod Reindexing
mod Tests
use uni.Prelude.{
  ℕ, Bool, true, false, ◌&&◌, not, List, [], ◌∷◌, ◌++◌, map, Option, none, some, if◌then◌else◌, ltb,
  ◌==◌, select, find, length, Uuid,
}
use uni.Prelude.Sorting.{sort}

-- A row of `belief_slots`, or of `propositions`. Its lifecycle is ACTIVE or not.
pub record Object (D : Type 0) : Type 0 where
  pub id : Uuid
  pub descriptor : D
  pub is_active : Bool

-- A row of `slot_fingerprints`, or of `proposition_fingerprints`; open while it has no end.
pub record IndexRow (D : Type 0) : Type 0 where
  pub object_id : Uuid
  pub normalization_version : ℕ
  pub fingerprint : ℕ
  pub descriptor : D
  pub is_open : Bool

pub record Store (D : Type 0) : Type 0 where
  pub objects : List (Object D)
  pub index : List (IndexRow D)

pub record Candidate (D : Type 0) : Type 0 where
  pub id : Uuid
  pub descriptor : D

pub data Outcome : Type 0 where
  match_existing possible_match create_new : Outcome

pub record Lookup (D : Type 0) : Type 0 where
  pub outcome : Outcome
  pub candidates : List (Candidate D)
  pub identity_established : Bool

pub record Resolved (D : Type 0) : Type 0 where
  pub lookup : Lookup D
  pub id : Uuid
  pub created : Bool

abbrev pub canonical_normalization_version : ℕ
canonical_normalization_version = 1

abbrev pub or_current : Option ℕ → ℕ
or_current none = canonical_normalization_version
or_current (some v) = v

pub data RecomputeError : Type 0 where
  normalization_version_unchanged : RecomputeError

pub data Result {ℓ} (A : Type ℓ) : Type ℓ where
  ok : A → Result A
  err : RecomputeError → Result A

module _ {D : Type 0} where
  abbrev pub object_of : Uuid → List (Object D) → Option (Object D)
  object_of id objects = find (λ (o : Object D). o.id == id) objects

  abbrev pub candidate_before : Candidate D → Candidate D → Bool
  candidate_before c e = ltb c.id e.id

  abbrev pub is_current : ℕ → IndexRow D → Bool
  is_current version r = (r.normalization_version == version) && r.is_open

  pub close_row : ℕ → IndexRow D → IndexRow D
  close_row version r = if is_current version r then record r { is_open = false } else r

  module _ (same : D → D → Bool) where
    abbrev pub identical : D → List (Candidate D) → List (Candidate D)
    identical wanted candidates = select (λ (c : Candidate D). same c.descriptor wanted) candidates

    pub decide : D → List (Candidate D) → Lookup D
    decide wanted [] = record {
      outcome = create_new;
      candidates = [];
      identity_established = false;
    }
    decide wanted (c ∷ cs) =
        if (length (c ∷ cs) == 1) && (length (identical wanted (c ∷ cs)) == 1)
        then record { outcome = match_existing; candidates = c ∷ cs; identity_established = true }
        else record { outcome = possible_match; candidates = c ∷ cs; identity_established = false }

    module _ (fingerprint : D → ℕ → ℕ) where
      abbrev pub index_row : ℕ → Uuid → D → IndexRow D
      index_row version id d = record {
        object_id = id;
        normalization_version = version;
        fingerprint = fingerprint d version;
        descriptor = d;
        is_open = true;
      }

      -- The object is minted, and its index row with it.
      pub create : ℕ → Uuid → D → Store D → Store D
      create version id d m = record {
        objects = record { id = id; descriptor = d; is_active = true } ∷ m.objects;
        index = index_row version id d ∷ m.index;
      }

      abbrev pub reindexed : ℕ → IndexRow D → IndexRow D
      reindexed to r = index_row to r.object_id r.descriptor

      -- The number of objects that were indexed again, and the store.
      pub recompute : ℕ → ℕ → Store D → Result (ℕ × Store D)
      recompute from to m =
          let rows = select (is_current from) m.index in
          if from == to
          then err normalization_version_unchanged
          else ok (
            length rows,
            record m { index = map (close_row from) (map (reindexed to) rows ++ m.index) },
          )

      module _ (read : IndexRow D → Object D → D) (belongs : D → Object D → Bool) where
        abbrev pub joined_row :
            D → IndexRow D → Option (Object D) → List (Candidate D) → List (Candidate D)
        joined_row wanted r none cs = cs
        joined_row wanted r (some o) cs =
            if o.is_active && belongs wanted o
            then record { id = o.id; descriptor = read r o } ∷ cs
            else cs

        abbrev pub is_hit : D → ℕ → IndexRow D → Bool
        is_hit wanted version r =
            is_current version r && (r.fingerprint == fingerprint wanted version)

        pub candidates_of : D → ℕ → List (Object D) → List (IndexRow D) → List (Candidate D)
        candidates_of wanted version objects [] = []
        candidates_of wanted version objects (r ∷ rows) =
            let rest = candidates_of wanted version objects rows in
            if is_hit wanted version r
            then joined_row wanted r (object_of r.object_id objects) rest
            else rest

        pub lookup : D → ℕ → Store D → Lookup D
        lookup wanted version m =
            decide wanted (sort candidate_before (candidates_of wanted version m.objects m.index))

        abbrev pub reuse :
            Lookup D → List (Candidate D) → Uuid → D → ℕ → Store D → Resolved D × Store D
        reuse l [] id wanted version m =
            (record { lookup = l; id = id; created = true }, create version id wanted m)
        reuse l (c ∷ cs) id wanted version m =
            if l.identity_established
            then (record { lookup = l; id = c.id; created = false }, m)
            else (record { lookup = l; id = id; created = true }, create version id wanted m)

        -- `id` is the identifier that is minted where an object is created.
        pub resolve : Uuid → D → ℕ → Store D → Resolved D × Store D
        resolve id wanted version m =
            let l = lookup wanted version m in reuse l l.candidates id wanted version m
