-- ===== src/Pipeline/AddDigests.antt =====
-- The digests that `dev_mgr_set_pipeline_config` of server/device_mgr.c puts into the digest map.
use p4runtime_grpcpp.Base.{
  ℕ, sym, inl, inr, Bool-cases, lt_bytes, ◌≢◌, All, ◌≡◌, refl, ◌∙◌, false, List, [], ◌∷◌, Option,
  none, some, or_else, Bytes, eq_bytes, if◌then◌else◌, arith,
}
use p4runtime_grpcpp.DigestMap.Laws.{UniqueIds, find-assign, IsOrdered, assign-IsOrdered}
use p4runtime_grpcpp.DigestMap.{Digest, DigestMap, find, assign}
use p4runtime_grpcpp.Pipeline.{add_digests}
use p4runtime_grpcpp.Proto.{Preamble}

-- The last digest of the list with the name, not asked for by anyone.
abbrev pub last_named : List Preamble → Bytes → Option Digest
last_named [] name = none
last_named (d ∷ rest) name = or_else (last_named rest name) (
    if eq_bytes d.name name
    then some (record { name = d.name; id = d.id; active = false })
    else none)

pub find-add_digests :
    (ds : DigestMap) (digests : List Preamble) (name : Bytes)
    → find (add_digests ds digests) name ≡ or_else (last_named digests name) (find ds name)
unfolding add_digests
find-add_digests ds [] name = refl
find-add_digests ds (d ∷ rest) name =
    let new : Digest = record { name = d.name; id = d.id; active = false } in
    find-add_digests (assign ds new) rest name ∙ ground (arith, find-assign ds new name)

pub add_digests-IsOrdered :
    (ds : DigestMap) (digests : List Preamble) → IsOrdered ds → IsOrdered (add_digests ds digests)
unfolding add_digests
add_digests-IsOrdered ds [] o = o
add_digests-IsOrdered ds (d ∷ rest) o =
    let new : Digest = record { name = d.name; id = d.id; active = false } in
    add_digests-IsOrdered (assign ds new) rest (assign-IsOrdered ds new o)

-- No two digests of a P4Info have one id.
abbrev pub HasUniqueIds : List Preamble → Type 0
HasUniqueIds [] = Unit
HasUniqueIds (d ∷ rest) = All (λ (e : Preamble). e.id ≢ d.id) rest × HasUniqueIds rest

-- An id that neither the digest nor the map has is not in the map with the digest.
assign-IsNewId :
    (ds : DigestMap) (new : Digest) (id : ℕ)
    → new.id ≢ id
    → All (λ (e : Digest). e.id ≢ id) ds
    → All (λ (e : Digest). e.id ≢ id) (assign ds new)
unfolding assign
assign-IsNewId [] new id other all = (other, tt)
assign-IsNewId (d ∷ ds) new id other (head, rest) =
    ground (arith, other, head, rest, assign-IsNewId ds new id other rest)

assign-UniqueIds :
    (ds : DigestMap) (new : Digest)
    → UniqueIds ds
    → All (λ (e : Digest). e.id ≢ new.id) ds
    → UniqueIds (assign ds new)
unfolding assign
assign-UniqueIds [] new unique all = (tt, tt)
assign-UniqueIds (d ∷ ds) new (head, rest) (other, all) =
    let behind = assign-IsNewId ds new d.id (λ e. other (sym e)) head in
    elim (Bool-cases (eq_bytes d.name new.name)) [
      | inl same ↦ rw same (all, rest)
      | inr differ ↦ elim (Bool-cases (lt_bytes new.name d.name)) [
        | inl before ↦ rw (differ, before) ((other, all), (head, rest))
        | inr after ↦ rw (differ, after) (behind, assign-UniqueIds ds new rest all)
      ]
    ]

-- The ids of the map and those of the digests to come are all different.
add_digests_onto :
    (ds : DigestMap) (digests : List Preamble)
    → UniqueIds ds
    → HasUniqueIds digests
    → All (λ (p : Preamble). All (λ (e : Digest). e.id ≢ p.id) ds) digests
    → UniqueIds (add_digests ds digests)
unfolding add_digests
add_digests_onto ds [] unique news apart = unique
add_digests_onto ds (d ∷ rest) unique (others, news) (here, apart) =
    let new : Digest = record { name = d.name; id = d.id; active = false } in
    add_digests_onto (assign ds new) rest (assign-UniqueIds ds new unique here) news
      (still_apart rest others apart)
  where
    still_apart :
        (ps : List Preamble)
        → All (λ (p : Preamble). p.id ≢ d.id) ps
        → All (λ (p : Preamble). All (λ (e : Digest). e.id ≢ p.id) ds) ps
        → All
            (λ (p : Preamble).
              All
                (λ (e : Digest). e.id ≢ p.id)
                (assign ds (record { name = d.name; id = d.id; active = false })))
            ps
    still_apart [] differ apart = tt
    still_apart (p ∷ ps) (first, differ) (one, apart) = (
      assign-IsNewId ds (record { name = d.name; id = d.id; active = false }) p.id
          (λ e. first (sym e)) one,
      still_apart ps differ apart,
    )

pub add_digests-UniqueIds :
    (digests : List Preamble) → HasUniqueIds digests → UniqueIds (add_digests [] digests)
add_digests-UniqueIds digests unique = add_digests_onto [] digests tt unique (none_yet digests)
  where
    none_yet :
        (ps : List Preamble) → All (λ (p : Preamble). All (λ (e : Digest). e.id ≢ p.id) []) ps
    none_yet [] = tt
    none_yet (p ∷ ps) = (tt, none_yet ps)
