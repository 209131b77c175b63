-- ===== src/IdMap/Lookup.antt =====
-- What the map of utils/map.c means: the first element stored under a key is the one found.
use native.Mathlib.Decide.{dec_le}
use p4runtime_grpcpp.Base.{
  ℕ, zero, suc, ◌+◌, ◌-◌, ◌≤◌, ◌<◌, ◌≡◌, ◌≢◌, ◌↔◌, Option, none, some, refl, arith, or_else, subst,
  sym, Option-cases, Bool-cases, inl, inr, ◌==◌, if◌then◌else◌, ap,
}
use p4runtime_grpcpp.IdMap.Probe.{
  IsFull, free_from_first, get_from-absent, IsFull-suc, get_from_congr, get_from-update_self,
  get_from-update_other,
}
use p4runtime_grpcpp.IdMap.{
  Element, IdMap, max_map_size, home, update, get_from, free_from, get_element, store, init_map,
}

pub home-le : (key : ℕ) → home key ≤ 4092
unfolding home
home-le key = omega arith

-- Every element stands at or behind its home, with no free slot between.
abbrev pub IsProbed : IdMap → Type 0
IsProbed m =
    (j : ℕ) (d : Element)
    → j < max_map_size
    → m.slot j ≡ some d
    → (home d.key ≤ j) × IsFull m.slot (home d.key) j

-- The lookups of `m'` are those of `m`, with `e` behind them.
abbrev pub Stores : IdMap → Element → IdMap → Type 0
Stores m e m' =
    (q : ℕ) → get_element m' q ≡ or_else (get_element m q) (if e.key == q then some e else none)

pub init_map-IsProbed : IsProbed init_map
unfolding init_map
init_map-IsProbed j d lt used = cc

pub get_element-init_map : (q : ℕ) → get_element init_map q ≡ none
unfolding get_element init_map
get_element-init_map q = get_from-absent _ _ _ _ q refl (λ j d lo hi used. cc)

update-IsFull :
    (slot : ℕ → Option Element) (i a b : ℕ) (e : Element)
    → IsFull slot a b
    → IsFull (update slot i e) a b
update-IsFull slot i a b e full j lo hi = elim (Bool-cases (i == j)) [
  | inl same ↦ (e, ground arith)
  | inr other ↦ let (d, used) = full j lo hi in (d, ground arith)
]

module _ (m : IdMap) (probed : IsProbed m) (e : Element) (i : ℕ)
    (first : free_from (max_map_size - home e.key) m.slot (home e.key) ≡ some i) where
  pub store-IsProbed : IsProbed (store m i e)
  store-IsProbed j d lt used =
      let (lo, hi, free, full) = free_from_first _ m.slot _ i first in
      elim (Bool-cases (i == j)) [
        | inl same ↦
            let at : i ≡ j = ground arith in
            let is : e ≡ d = ground arith in
            subst (λ (x : Element). (home x.key ≤ j) × IsFull (store m i e).slot (home x.key) j) is
              (omega arith, update-IsFull m.slot i _ j e (subst (IsFull m.slot _) at full))
        | inr other ↦
            let (lo', full') = probed j d lt (ground arith) in
            (lo', update-IsFull m.slot i _ j e full')
      ]

  -- Behind a free slot stands no element whose probes begin before it.
  behind_free :
      (q : ℕ)
      → home q ≤ i
      → (j : ℕ) (d : Element) → i < j
      → j < max_map_size
      → m.slot j ≡ some d
      → d.key ≢ q
  behind_free q before j d lo hi used same =
      let (lo', hi', free, full) = free_from_first _ m.slot _ i first in
      let (from, full') = probed j d hi used in
      let (x, u) = full' i (subst (λ k. home k ≤ i) (sym same) before) lo in cc

  store_self : get_element (store m i e) e.key ≡ or_else (get_element m e.key) (some e)
  unfolding get_element
  store_self =
      let (lo, hi, free, full) = free_from_first _ m.slot _ i first in
      get_from-update_self m.slot i e _ _ lo hi free full

  store_other : (q : ℕ) → e.key ≢ q → get_element (store m i e) q ≡ get_element m q
  unfolding get_element
  store_other q ne =
      let (lo, hi, free, full) = free_from_first _ m.slot _ i first in
      let bound : home q + (max_map_size - home q) ≡ max_map_size = omega (arith, home-le q) in
      elim (dec_le (home q) i) [
        | yes before ↦ get_from-update_other m.slot i e _ _ _ q bound free ne (behind_free q before)
        | no after ↦ get_from_congr _ _ _ _ q (λ j from. ground arith)
      ]

  pub store-Stores : Stores m e (store m i e)
  store-Stores q = elim (Bool-cases (e.key == q)) [
    | inl same ↦
        let at : e.key ≡ q = ground arith in
        rw same (
          subst (λ k. get_element (store m i e) k ≡ or_else (get_element m k) (some e)) at
            store_self)
    | inr other ↦ rw (other, store_other q (ground arith)) (ground arith)
  ]

-- The element that a lookup finds has the key that was asked for, and stands in a slot.
get_from_sound :
    (n : ℕ) (slot : ℕ → Option Element) (s b q : ℕ) (e : Element)
    → s + n ≡ b
    → get_from n slot s q ≡ some e
    → (j : ℕ) × (s ≤ j) × (j < b) × (slot j ≡ some e) × (e.key ≡ q) × IsFull slot s j
unfolding get_from
get_from_sound zero slot s b q e len h = cc
get_from_sound (suc n) slot s b q e len h = elim (Option-cases (slot s)) [
  | inl free ↦ absurd (ground arith)
  | inr (d, used) ↦ elim (Bool-cases (d.key == q)) [
    | inl hit ↦
        let is : d ≡ e = ground arith in
        (s, omega arith, omega arith, ground arith, ground arith, λ j lo hi. absurd (omega arith))
    | inr miss ↦
        let (j, lo, hi, at, key, full) =
          get_from_sound n slot (suc s) b q e (omega arith) (ground arith) in
        (j, omega arith, hi, at, key, IsFull-suc slot s j (d, used) full)
  ]
]

pub get_element-key : (m : IdMap) (q : ℕ) (e : Element) → get_element m q ≡ some e → e.key ≡ q
unfolding get_element
get_element-key m q e h = (get_from_sound _ m.slot _ _ q e refl h).4

-- Nothing is missed: where a lookup finds nothing, no slot holds the key.
get_from_complete :
    (n : ℕ) (slot : ℕ → Option Element) (s q j : ℕ) (e : Element)
    → s ≤ j
    → j < s + n
    → slot j ≡ some e
    → e.key ≡ q
    → IsFull slot s j
    → get_from n slot s q ≢ none
unfolding get_from
get_from_complete zero slot s q j e lo hi at key full h = absurd (omega arith)
get_from_complete (suc n) slot s q j e lo hi at key full h = elim (Bool-cases (s == j)) [
  | inl same ↦ let here : s ≡ j = ground arith in ground (arith, ap slot here)
  | inr other ↦
      let (d, used) = full s (omega arith) (ground arith) in
      let ih =
        get_from_complete n slot (suc s) q j e (ground arith) (omega arith) at key
          (λ k p. full k (omega arith)) in
      ground (arith, used, ih)
]

-- In a map that can be probed, a lookup finds nothing exactly when no slot holds the key.
pub get_element-none_iff :
    (m : IdMap) (q : ℕ)
    → IsProbed m
    → (get_element m q ≡ none)
      ↔ ((j : ℕ) (e : Element) → j < max_map_size → m.slot j ≡ some e → e.key ≢ q)
unfolding get_element
get_element-none_iff m q probed = (
  λ h j e lt used key.
      let (lo, full) = probed j e lt used in
      let lo' : home q ≤ j = subst (λ k. home k ≤ j) key lo in
      get_from_complete _ m.slot (home q) q j e lo' (omega arith) used key
        (subst (λ k. IsFull m.slot (home k) j) key full) h,
  λ absent.
      get_from-absent _ m.slot (home q) max_map_size q (omega (arith, home-le q))
        (λ j d _ lt used. absent j d lt used),
)
