-- ===== src/IdMap/Walk.antt =====
-- The loop of `get_element` in utils/map.c, as the rules by which it runs, with its rounds counted.
use p4runtime_grpcpp.Base.{
  ℕ, zero, suc, ◌+◌, ◌-◌, ◌≤◌, ◌<◌, ◌≡◌, ◌≢◌, ◌↔◌, refl, Option, none, some, Option-cases,
  Bool-cases, inl, inr, ◌==◌, arith, subst, sym, true, false,
}
use p4runtime_grpcpp.IdMap.Lookup.{home-le}
use p4runtime_grpcpp.IdMap.{Element, IdMap, max_map_size, home, get_from, get_element}

-- `Walk m key i n found`: from slot `i` on the loop makes `n` rounds, and returns `found`.
pub data Walk (m : IdMap) (key : ℕ) : ℕ → ℕ → Option Element → Type 0 where
  -- The end of the array: no round is made.
  beyond :
      {i n : ℕ} {found : Option Element}
      → max_map_size ≤ i
      → n ≡ 0
      → found ≡ none
      → Walk m key i n found
  -- A free slot: `break`.
  free :
      {i n : ℕ} {found : Option Element}
      → i < max_map_size
      → m.slot i ≡ none
      → n ≡ 1
      → found ≡ none
      → Walk m key i n found
  -- The key: `return`.
  hit :
      {i n : ℕ} {found : Option Element} {e : Element}
      → i < max_map_size
      → m.slot i ≡ some e
      → e.key ≡ key
      → n ≡ 1
      → found ≡ some e
      → Walk m key i n found
  -- Another key: `++i`.
  next :
      {i n k : ℕ} {found : Option Element} {e : Element}
      → i < max_map_size
      → m.slot i ≡ some e
      → e.key ≢ key
      → Walk m key (suc i) k found
      → n ≡ suc k
      → Walk m key i n found

-- The rounds of the loop, with `n` slots left from `i` on.
rounds_from : ℕ → (ℕ → Option Element) → ℕ → ℕ → ℕ
rounds_from zero slot i key = 0
rounds_from (suc n) slot i key = elim (slot i) [
  | none ↦ 1
  | some e ↦ elim (e.key == key) [ true ↦ 1 | false ↦ suc (rounds_from n slot (suc i) key) ]
]

rounds_from-le : (n : ℕ) (slot : ℕ → Option Element) (i key : ℕ) → rounds_from n slot i key ≤ n
unfolding rounds_from
rounds_from-le zero slot i key = omega arith
rounds_from-le (suc n) slot i key = ground (arith, rounds_from-le n slot (suc i) key)

module _ (m : IdMap) (key : ℕ) where
  run_of :
      (left i : ℕ)
      → i + left ≡ max_map_size
      → Walk m key i (rounds_from left m.slot i key) (get_from left m.slot i key)
  unfolding rounds_from get_from
  run_of zero i e = Walk.beyond (omega arith) refl refl
  run_of (suc left) i e = elim (Option-cases (m.slot i)) [
    | inl none_there ↦
        Walk.free (omega arith) none_there (ground (arith, none_there)) (ground (arith, none_there))
    | inr (d, there) ↦ elim (Bool-cases (d.key == key)) [
      | inl same ↦
          Walk.hit (omega arith) there (ground arith) (ground (arith, there, same))
            (ground (arith, there, same))
      | inr other ↦
          let rest = run_of left (suc i) (omega arith) in
          let found : get_from left m.slot (suc i) key ≡ get_from (suc left) m.slot i key =
            ground (arith, there, other) in
          subst (λ (r : Option Element). Walk m key i (rounds_from (suc left) m.slot i key) r) found
            (Walk.next (omega arith) there (ground arith) rest (ground (arith, there, other)))
    ]
  ]

  run_unique :
      (left i n : ℕ) (found : Option Element)
      → i + left ≡ max_map_size
      → Walk m key i n found
      → (n ≡ rounds_from left m.slot i key) × (found ≡ get_from left m.slot i key)
  unfolding rounds_from get_from
  run_unique zero i n found e (Walk.beyond out z is) = (z, is)
  run_unique (suc left) i n found e (Walk.beyond out z is) = absurd (omega arith)
  run_unique zero i n found e (Walk.free lt _ _ _) = absurd (omega arith)
  run_unique (suc left) i n found e (Walk.free lt at one is) = ground (arith, at)
  run_unique zero i n found e (Walk.hit lt _ _ _ _) = absurd (omega arith)
  run_unique (suc left) i n found e (Walk.hit lt at same one is) = ground (arith, at)
  run_unique zero i n found e (Walk.next lt _ _ _ _) = absurd (omega arith)
  run_unique (suc left) i n found e (Walk.next {k = k} lt at other rest one) =
      let later = run_unique left (suc i) k found (omega arith) rest in ground (arith, at, later)

-- The loop of `get_element` ends: from the home of the key there is just one run, of at most as
-- many rounds as there are slots from there on, and it returns what `get_element` returns.
pub get_element-Walk :
    (m : IdMap) (key : ℕ)
    → (n : ℕ) × (n ≤ max_map_size - home key)
      × ((k : ℕ) (found : Option Element)
          → Walk m key (home key) k found ↔ ((k ≡ n) × (found ≡ get_element m key)))
unfolding get_element
get_element-Walk m key =
    let left : ℕ = max_map_size - home key in
    let all : home key + left ≡ max_map_size = omega (arith, home-le key) in
    (
      rounds_from left m.slot (home key) key,
      rounds_from-le left m.slot (home key) key,
      λ k found. (
        λ walk. run_unique m key left (home key) k found all walk,
        λ (rounds, is).
            subst (λ (r : Option Element). Walk m key (home key) k r) (sym is)
              (subst (λ (j : ℕ). Walk m key (home key) j (get_element m key)) (sym rounds)
                (run_of m key left (home key) all)),
      ),
    )
