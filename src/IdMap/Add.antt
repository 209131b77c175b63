-- ===== src/IdMap/Add.antt =====
-- `add_element` of utils/map.c: what it stores, and when it finds no room.
use native.Mathlib.Decide.{ℕ_discrete}
use p4runtime_grpcpp.Base.{
  ℕ, zero, suc, ◌+◌, ◌-◌, ◌≤◌, ◌<◌, ◌≡◌, ◌≢◌, ◌↔◌, Option, none, some, refl, arith, Bytes,
  Option-cases, inl, inr, ◌⊎◌, fun_ext, ◌==◌, if◌then◌else◌, sym, ap, ap, subst, leb, Bool-cases,
}
use p4runtime_grpcpp.IdMap.Lookup.{IsProbed, Stores, home-le, store-IsProbed, store-Stores}
use p4runtime_grpcpp.IdMap.Probe.{IsFull, free_from_first, free_from-none}
use p4runtime_grpcpp.IdMap.{
  Element, IdMap, max_map_size, home, update, free_from, add_element, new_element, store, init_map,
}

-- The map after a successful call that returned the slot `i`.
pub record IsAdded (m : IdMap) (e : Element) (i : ℕ) (m' : IdMap) : Type 0 where
  pub behind_home : home e.key ≤ i
  pub in_range : i < max_map_size
  pub was_free : m.slot i ≡ none
  pub holds : m'.slot i ≡ some e
  pub keeps : (j : ℕ) → i ≢ j → m'.slot j ≡ m.slot j
  pub probed : IsProbed m'
  pub stores : Stores m e m'

store-IsAdded :
    (m : IdMap) (e : Element) (i : ℕ)
    → IsProbed m
    → free_from (max_map_size - home e.key) m.slot (home e.key) ≡ some i
    → IsAdded m e i (store m i e)
store-IsAdded m e i probed first =
    let (lo, hi, free, full) = free_from_first _ m.slot _ i first in
    record {
      behind_home = lo;
      in_range = omega (arith, home-le e.key);
      was_free = free;
      holds = ground arith;
      keeps = λ j ne. ground arith;
      probed = store-IsProbed m probed e i first;
      stores = store-Stores m probed e i first;
    }

add_element_first :
    (m : IdMap) (key i : ℕ) (value : Bytes) (m' : IdMap)
    → add_element m key value ≡ (some i, m')
    → (free_from (max_map_size - home key) m.slot (home key) ≡ some i)
      × (m' ≡ store m i (new_element key value))
unfolding add_element
add_element_first m key i value m' h = (ground arith, ground arith)

-- Whatever the map: the slot is the first free one from the key's home on.
pub add_element_free :
    (m : IdMap) (key i : ℕ) (value : Bytes) (m' : IdMap)
    → add_element m key value ≡ (some i, m')
    → (home key ≤ i) × (i < max_map_size) × (m.slot i ≡ none) × IsFull m.slot (home key) i
add_element_free m key i value m' h =
    let (lo, hi, free, full) =
      free_from_first _ m.slot _ i (add_element_first m key i value m' h).0 in
    (lo, omega (arith, home-le key), free, full)

-- A successful call, on a map that can be probed: the slot it returns was free and holds the new element,
-- all the others are as before, the map can still be probed, and the lookups are as before, but that the
-- new element is found under its key, unless one of that key was there already.
pub add_element-IsAdded :
    (m : IdMap) (key i : ℕ) (value : Bytes) (m' : IdMap)
    → IsProbed m
    → add_element m key value ≡ (some i, m')
    → IsAdded m (new_element key value) i m'
add_element-IsAdded m key i value m' probed h =
    let (first, e) = add_element_first m key i value m' h in
    subst (IsAdded m (new_element key value) i) (sym e)
      (store-IsAdded m (new_element key value) i probed first)

pub store-store : (m : IdMap) (i : ℕ) (e e' : Element) → store (store m i e) i e' ≡ store m i e'
store-store m i e e' d = record {
  slot =
      fun_ext {f = (store (store m i e) i e').slot} {g = (store m i e').slot} (λ j. ground arith) d;
}

pub store_same : (m : IdMap) (i : ℕ) (e : Element) → m.slot i ≡ some e → store m i e ≡ m
store_same m i e h d = record {
  slot = fun_ext {f = (store m i e).slot} {g = m.slot} (λ j. store_at j (ℕ_discrete i j)) d;
}
  where
    store_at : (j : ℕ) → Dec (i ≡ j) → (store m i e).slot j ≡ m.slot j
    store_at j (yes same) = ground (arith, ap m.slot same)
    store_at j (no other) = ground arith

-- What the callers do next: they fill the new element through the pointer.
pub fill-IsAdded :
    (m : IdMap) (e : Element) (i : ℕ) (value : Bytes) (m' : IdMap)
    → IsProbed m
    → add_element m e.key value ≡ (some i, m')
    → IsAdded m e i (store m i e)
fill-IsAdded m e i value m' probed h =
    store-IsAdded m e i probed (add_element_first m e.key i value m' h).0

-- The call fails exactly when no slot from the key's home on is free, and then changes nothing.
pub add_element-none_iff :
    (m : IdMap) (key : ℕ) (value : Bytes)
    → (add_element m key value ≡ (none, m)) ↔ IsFull m.slot (home key) max_map_size
unfolding add_element
add_element-none_iff m key value = (
  λ h.
      free_from-none (max_map_size - home key) m.slot (home key) max_map_size
        (omega (arith, home-le key)) (ground arith),
  λ full. elim (Option-cases (free_from (max_map_size - home key) m.slot (home key))) [
    | inl e ↦ rw (e, add_element)
    | inr (i, e) ↦
        let (lo, hi, free, _) = free_from_first _ m.slot _ i e in
        let (d, used) = full i lo (omega (arith, home-le key)) in absurd (ground arith)
  ],
)

pub add_element-cases :
    (m : IdMap) (key : ℕ) (value : Bytes)
    → (add_element m key value ≡ (none, m))
      ⊎ ((i : ℕ) × (add_element m key value ≡ (some i, store m i (new_element key value))))
unfolding add_element
add_element-cases m key value =
    elim (Option-cases (free_from (max_map_size - home key) m.slot (home key))) [
      | inl e ↦ inl (rw (e, add_element))
      | inr (i, e) ↦ inr (i, rw (e, add_element))
    ]

-- The number of slots in use among `n` from `s` on.
unfoldable pub used_from : ℕ → (ℕ → Option Element) → ℕ → ℕ
used_from zero slot s = 0
used_from (suc n) slot s = elim (slot s) [ none ↦ 0 | some e ↦ 1 ] + used_from n slot (suc s)

abbrev pub used : IdMap → ℕ
used m = used_from max_map_size m.slot 0

pub used_from-IsFull :
    (n : ℕ) (slot : ℕ → Option Element) (s b : ℕ)
    → s + n ≡ b
    → IsFull slot s b
    → used_from n slot s ≡ n
unfolding used_from
used_from-IsFull zero slot s b e full = refl
used_from-IsFull (suc n) slot s b e full =
    let (d, u) = full s (omega arith) (omega arith) in
    let rest = used_from-IsFull n slot (suc s) b (omega arith) (λ j p. full j (omega arith)) in
    rw u (omega arith)

used_from-le :
    (a n k s t : ℕ) (slot : ℕ → Option Element)
    → s + a ≡ t
    → k ≡ a + n
    → used_from n slot t ≤ used_from k slot s
unfolding used_from
used_from-le zero n k s t slot e f =
    let st : s ≡ t = omega arith in let nk : k ≡ n = omega arith in rw (st, nk) (omega arith)
used_from-le (suc a) n zero s t slot e f = absurd (omega arith)
used_from-le (suc a) n (suc k) s t slot e f =
    let ih = used_from-le a n k (suc s) t slot (omega arith) (omega arith) in ground (arith, ih)

-- While fewer elements are stored than there are slots from the key's home on, a call finds room.
pub add_element-roomy :
    (m : IdMap) (key : ℕ) (value : Bytes)
    → used m + home key < max_map_size
    → (i : ℕ) × (add_element m key value ≡ (some i, store m i (new_element key value)))
add_element-roomy m key value room = elim (add_element-cases m key value) [
  | inr found ↦ found
  | inl e ↦
      let full = (add_element-none_iff m key value).0 e in
      let n : ℕ = max_map_size - home key in
      let all =
        used_from-IsFull n m.slot (home key) max_map_size (omega (arith, home-le key)) full in
      let le =
        used_from-le (home key) n max_map_size 0 (home key) m.slot (omega arith)
          (omega (arith, home-le key)) in
      absurd (omega (arith, home-le key))
]

pub used_from-update :
    (n : ℕ) (slot : ℕ → Option Element) (s i : ℕ) (e : Element)
    → slot i ≡ none
    → used_from n (update slot i e) s ≤ used_from n slot s + (if leb s i then 1 else 0)
unfolding used_from
used_from-update zero slot s i e free = omega arith
used_from-update (suc n) slot s i e free =
    let ih = used_from-update n slot (suc s) i e free in
    elim (Bool-cases (i == s)) [
      | inl same ↦ let at : i ≡ s = ground arith in ground (arith, ih, ap slot at)
      | inr other ↦ ground (arith, ih)
    ]

pub used-store :
    (m : IdMap) (i : ℕ) (e : Element) → m.slot i ≡ none → used (store m i e) ≤ used m + 1
used-store m i e free = ground (arith, used_from-update max_map_size m.slot 0 i e free)

pub used_from-none : (n s : ℕ) → used_from n (λ i. none) s ≡ 0
unfolding used_from
used_from-none zero s = refl
used_from-none (suc n) s = ground (arith, used_from-none n (suc s))

pub used-init_map : used init_map ≡ 0
unfolding init_map
used-init_map = used_from-none max_map_size 0
