-- ===== src/MapDriver/Holds.antt =====
-- What the map of utils/test_map.c holds: the multiples of 113 spread over the hash values.
use p4runtime_grpcpp.Base.{
  ◌↔◌, ℕ, zero, suc, ◌+◌, ◌-◌, ◌*◌, ◌%◌, ◌/◌, ◌≤◌, ◌<◌, ◌≡◌, List, [], ◌∷◌, Bytes, arith,
  Bool-cases, inl, inr, ◌==◌,
}
use p4runtime_grpcpp.IdMap.{
  init_map, store, Element, IdMap, new_element, add_element, max_hash_size,
}
use p4runtime_grpcpp.IdMap.Add.{fill-IsAdded, used, used-store, used-init_map}
use p4runtime_grpcpp.IdMap.Bucket.{
  FitsBuckets, FitsBuckets-next, hashed_to, bucket, init_map-FitsBuckets,
}
use p4runtime_grpcpp.IdMap.Lookup.{IsProbed, init_map-IsProbed}
use p4runtime_grpcpp.IdMap.Used.{used-store_one}
use p4runtime_grpcpp.MapDriver.{almafa, kortefa, add_loop, two_added}
use p4runtime_grpcpp.Pipeline.Load.{Loaded, Loaded-nil, Loaded-append}

-- What the first loop adds.
abbrev pub multiples : ℕ → ℕ → Bytes → List Element
multiples zero i b = []
multiples (suc n) i b = new_element (i * 113) b ∷ multiples n (suc i) b

-- 113 has an inverse among the hash values, so that they are hit in turn.
hash_turn : (i b : ℕ) → b < 1024 → ((i * 113) % 1024 ≡ b) ↔ (i % 1024 ≡ (b * 145) % 1024)
hash_turn i b lt = (λ e. omega arith, λ e. omega arith)

hashed_to-multiples :
    (n i b : ℕ) (name : Bytes)
    → b < max_hash_size
    → let c = (b * 145) % 1024 in
      hashed_to b (multiples n i name) + (i + 1023 - c) / 1024 ≡ (i + n + 1023 - c) / 1024
hashed_to-multiples zero i b name lt = ground arith
hashed_to-multiples (suc n) i b name lt =
    let rest = hashed_to-multiples n (suc i) b name lt in
    let turn = hash_turn i b lt in
    elim (Bool-cases (bucket (i * 113) == b)) [
      | inl hit ↦ ground (arith, hit, rest, turn.0)
      | inr missed ↦ ground (arith, missed, rest, turn.1)
    ]

-- What `main` adds in all.
abbrev pub added : ℕ → List Element
added rounds = new_element 112 almafa ∷ new_element 3321313131 kortefa ∷ multiples rounds 0 almafa

pub added-FitsBuckets : (rounds : ℕ) → rounds ≤ 3072 → FitsBuckets init_map (added rounds)
added-FitsBuckets rounds le =
    init_map-FitsBuckets (added rounds)
      (λ b lt. ground (arith, hashed_to-multiples rounds 0 b almafa lt))

-- An element that finds room is stored behind the others.
add-Loaded :
    (m : IdMap) (key : ℕ) (name : Bytes) (es : List Element)
    → IsProbed m
    → FitsBuckets m (new_element key name ∷ es)
    → let m' = (add_element m key name).1 in
      Loaded m (new_element key name ∷ []) m' × FitsBuckets m' es × (used m' ≡ used m + 1)
add-Loaded m key name es probed room =
    let e : Element = new_element key name in
    let (i, run, left) = FitsBuckets-next m e es name room in
    let is = fill-IsAdded m e i name (store m i e) probed run in
    rw run (
      record {
        probed = is.probed;
        used_le = omega (arith, used-store m i e is.was_free);
        loads = λ q. ground (arith, is.stores q);
      },
      left,
      used-store_one m i e is.was_free is.in_range,
    )

pub add_loop-Loaded :
    (n i : ℕ) (b : Bytes) (m : IdMap)
    → IsProbed m
    → FitsBuckets m (multiples n i b)
    → let m' = add_loop n i b m in Loaded m (multiples n i b) m' × (used m' ≡ used m + n)
unfolding add_loop
add_loop-Loaded zero i b m probed room = (Loaded-nil m probed, omega arith)
add_loop-Loaded (suc n) i b m probed room =
    let (one, left, more) = add-Loaded m (i * 113) b (multiples n (suc i) b) probed room in
    let (rest, all) = add_loop-Loaded n (suc i) b _ one.probed left in
    (Loaded-append m _ _ _ _ one rest, omega (arith, more, all))

-- The map that is looked up in.
pub two_added-Loaded :
    (rounds : ℕ)
    → rounds ≤ 3072
    → Loaded init_map (new_element 112 almafa ∷ new_element 3321313131 kortefa ∷ []) two_added
      × FitsBuckets two_added (multiples rounds 0 almafa)
      × (used two_added ≡ 2)
unfolding two_added
two_added-Loaded rounds le =
    let (first, room, one) =
      add-Loaded init_map 112 almafa (new_element 3321313131 kortefa ∷ multiples rounds 0 almafa)
        init_map-IsProbed (added-FitsBuckets rounds le) in
    let (second, left, two) =
      add-Loaded _ 3321313131 kortefa (multiples rounds 0 almafa) first.probed room in
    (Loaded-append init_map _ _ _ _ first second, left, omega (arith, used-init_map, one, two))
