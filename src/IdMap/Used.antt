-- ===== src/IdMap/Used.antt =====
-- How many slots of the map of utils/map.c are used.
use p4runtime_grpcpp.Base.{
  ℕ, zero, suc, ◌+◌, ◌*◌, ◌<◌, ◌≡◌, refl, ap, Option, none, arith, Bool-cases, inl, inr, ◌==◌,
  if◌then◌else◌, leb, length,
}
use p4runtime_grpcpp.IdMap.Add.{used_from, used}
use p4runtime_grpcpp.IdMap.{Element, IdMap, update, store, max_map_size, destroy_from, destroy_map}

used_from-store :
    (n : ℕ) (slot : ℕ → Option Element) (s i : ℕ) (e : Element)
    → slot i ≡ none
    → i < s + n
    → used_from n (update slot i e) s ≡ used_from n slot s + (if leb s i then 1 else 0)
unfolding used_from
used_from-store zero slot s i e free lt = ground arith
used_from-store (suc n) slot s i e free lt =
    let ih = used_from-store n slot (suc s) i e free (omega arith) in
    elim (Bool-cases (i == s)) [
      | inl same ↦ let at : i ≡ s = ground arith in ground (arith, ih, ap slot at)
      | inr other ↦ ground (arith, ih)
    ]

-- A slot that is filled counts for one.
pub used-store_one :
    (m : IdMap) (i : ℕ) (e : Element)
    → m.slot i ≡ none
    → i < max_map_size
    → used (store m i e) ≡ used m + 1
used-store_one m i e free lt = ground (arith, used_from-store max_map_size m.slot 0 i e free lt)

destroy_from-length :
    (n : ℕ) (slot : ℕ → Option Element) (s : ℕ)
    → length (destroy_from n slot s) ≡ used_from n slot s * 2
unfolding destroy_from used_from
destroy_from-length zero slot s = refl
destroy_from-length (suc n) slot s = ground (arith, destroy_from-length n slot (suc s))

-- Two blocks are freed for each slot that is used.
pub destroy_map-length : (m : IdMap) → length (destroy_map m) ≡ used m * 2
unfolding destroy_map
destroy_map-length m = destroy_from-length max_map_size m.slot 0
