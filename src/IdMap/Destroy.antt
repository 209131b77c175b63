-- ===== src/IdMap/Destroy.antt =====
-- `destroy_map` of utils/map.c: what is handed to `free`.
use p4runtime_grpcpp.Base.{
  ℕ, zero, suc, ◌+◌, ◌≤◌, ◌<◌, ◌≡◌, refl, Bool, false, List, [], ◌∷◌, Option, none, some, arith,
  ◌==◌, if◌then◌else◌, Bool-cases, inl, inr, ap,
}
use p4runtime_grpcpp.IdMap.{
  Element, IdMap, Block, value_of, element, max_map_size, destroy_from, destroy_map,
}

abbrev pub is_value_of : ℕ → Block → Bool
is_value_of i (value_of j) = i == j
is_value_of i (element j) = false

abbrev pub is_element : ℕ → Block → Bool
is_element i (value_of j) = false
is_element i (element j) = i == j

-- How many of the blocks pass the test.
abbrev pub count : (Block → Bool) → List Block → ℕ
count test [] = 0
count test (b ∷ bs) = (if test b then 1 else 0) + count test bs

abbrev pub occupied : Option Element → ℕ
occupied none = 0
occupied (some e) = 1

module _ (test : ℕ → Block → Bool) (i : ℕ)
    (once : (j : ℕ)
      → count (test i) (value_of j ∷ element j ∷ []) ≡ (if i == j then 1 else 0)) where
  count-before :
      (n : ℕ) (slot : ℕ → Option Element) (s : ℕ)
      → i < s
      → count (test i) (destroy_from n slot s) ≡ 0
  unfolding destroy_from
  count-before zero slot s lt = refl
  count-before (suc n) slot s lt = ground (arith, once s, count-before n slot (suc s))

  count-within :
      (n : ℕ) (slot : ℕ → Option Element) (s : ℕ)
      → s ≤ i
      → i < s + n
      → count (test i) (destroy_from n slot s) ≡ occupied (slot i)
  unfolding destroy_from
  count-within zero slot s le lt = absurd (omega arith)
  count-within (suc n) slot s le lt = elim (Bool-cases (i == s)) [
    | inl same ↦
        let at : i ≡ s = ground arith in
        ground (arith, once s, count-before n slot (suc s), ap slot at)
    | inr other ↦ ground (arith, once s, count-within n slot (suc s))
  ]

-- The name and the element of a slot that is used are freed exactly once each; of a slot that is
-- not used nothing is freed.
destroy_map-once :
    (m : IdMap) (i : ℕ)
    → i < max_map_size
    → (count (is_value_of i) (destroy_map m) ≡ occupied (m.slot i))
      × (count (is_element i) (destroy_map m) ≡ occupied (m.slot i))
unfolding destroy_map
destroy_map-once m i lt = (
  count-within is_value_of i (λ j. ground arith) max_map_size m.slot 0 (omega arith) lt,
  count-within is_element i (λ j. ground arith) max_map_size m.slot 0 (omega arith) lt,
)
