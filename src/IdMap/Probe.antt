-- ===== src/IdMap/Probe.antt =====
-- The probe loops of utils/map.c, over any array of slots.
use p4runtime_grpcpp.Base.{
  ℕ, zero, suc, ◌+◌, ◌≤◌, ◌<◌, ◌≡◌, ◌≢◌, inl, inr, Option, none, some, refl, arith, or_else,
  Option-cases, Bool-cases, ◌==◌, subst, ap,
}
use p4runtime_grpcpp.IdMap.{Element, update, get_from, free_from}

abbrev pub IsUsed : (ℕ → Option Element) → ℕ → Type 0
IsUsed slot j = (e : Element) × (slot j ≡ some e)

-- The slots from `a` up to `b` are all in use.
abbrev pub IsFull : (ℕ → Option Element) → ℕ → ℕ → Type 0
IsFull slot a b = (j : ℕ) → a ≤ j → j < b → IsUsed slot j

pub IsFull-suc :
    (slot : ℕ → Option Element) (a b : ℕ) → IsUsed slot a → IsFull slot (suc a) b → IsFull slot a b
IsFull-suc slot a b u full j lo hi = elim (Bool-cases (a == j)) [
  | inl same ↦ subst (IsUsed slot) (ground arith) u
  | inr other ↦ full j (ground arith) hi
]

-- What `add_element` finds: the first free slot.
pub free_from_first :
    (n : ℕ) (slot : ℕ → Option Element) (s i : ℕ)
    → free_from n slot s ≡ some i
    → (s ≤ i) × (i < s + n) × (slot i ≡ none) × IsFull slot s i
unfolding free_from
free_from_first zero slot s i h = cc
free_from_first (suc n) slot s i h = elim (Option-cases (slot s)) [
  | inl free ↦
      let e : s ≡ i = ground arith in
      (omega arith, omega arith, subst (λ k. slot k ≡ none) e free, λ j lo hi. absurd (omega arith))
  | inr (d, used) ↦
      let (lo, hi, free, full) = free_from_first n slot (suc s) i (ground arith) in
      (omega arith, omega arith, free, IsFull-suc slot s i (d, used) full)
]

-- It finds none exactly when no slot is left.
pub free_from-none :
    (n : ℕ) (slot : ℕ → Option Element) (s b : ℕ)
    → s + n ≡ b
    → free_from n slot s ≡ none
    → IsFull slot s b
unfolding free_from
free_from-none zero slot s b e h = λ j lo hi. absurd (omega arith)
free_from-none (suc n) slot s b e h = elim (Option-cases (slot s)) [
  | inl free ↦ absurd (ground arith)
  | inr (d, used) ↦
      IsFull-suc slot s b (d, used) (free_from-none n slot (suc s) b (omega arith) (ground arith))
]

pub free_from-some :
    (n : ℕ) (slot : ℕ → Option Element) (s i : ℕ)
    → s ≤ i
    → i < s + n
    → slot i ≡ none
    → (k : ℕ) × (free_from n slot s ≡ some k)
unfolding free_from
free_from-some zero slot s i lo hi free = absurd (omega arith)
free_from-some (suc n) slot s i lo hi free = elim (Option-cases (slot s)) [
  | inl here ↦ (s, ground arith)
  | inr (d, used) ↦
      let ne : s ≢ i = λ e. cc (subst (λ k. slot k ≡ some d) e used) in
      let (k, r) = free_from-some n slot (suc s) i (omega arith) (omega arith) free in
      (k, ground arith)
]

-- A probe reads nothing but the slots from its start on.
pub get_from_congr :
    (n : ℕ) (f g : ℕ → Option Element) (s q : ℕ)
    → ((j : ℕ) → s ≤ j → f j ≡ g j)
    → get_from n f s q ≡ get_from n g s q
unfolding get_from
get_from_congr zero f g s q h = refl
get_from_congr (suc n) f g s q h =
    ground (arith, h s (omega arith), get_from_congr n f g (suc s) q (λ j lo. h j (omega arith)))

-- Where no slot holds the key, the probe finds nothing.
pub get_from-absent :
    (n : ℕ) (slot : ℕ → Option Element) (s b q : ℕ)
    → s + n ≡ b
    → ((j : ℕ) (d : Element) → s ≤ j → j < b → slot j ≡ some d → d.key ≢ q)
    → get_from n slot s q ≡ none
unfolding get_from
get_from-absent zero slot s b q e h = refl
get_from-absent (suc n) slot s b q e h = elim (Option-cases (slot s)) [
  | inl free ↦ ground arith
  | inr (d, used) ↦ ground (
    arith,
    used,
    h s d (omega arith) (omega arith) used,
    get_from-absent n slot (suc s) b q (omega arith) (λ j d' lo. h j d' (omega arith)),
  )
]

module _ (slot : ℕ → Option Element) (i : ℕ) (new : Element) where
  -- The new element is found by its key, unless an older one has the key.
  pub get_from-update_self :
      (n s : ℕ)
      → s ≤ i
      → i < s + n
      → slot i ≡ none
      → IsFull slot s i
      → get_from n (update slot i new) s new.key ≡ or_else (get_from n slot s new.key) (some new)
  unfolding get_from
  get_from-update_self zero s lo hi free full = absurd (omega arith)
  get_from-update_self (suc n) s lo hi free full = elim (Bool-cases (i == s)) [
    | inl same ↦ let e : i ≡ s = ground arith in ground (arith, ap slot e)
    | inr other ↦
        let (d, used) = full s (omega arith) (ground arith) in
        ground (
          arith,
          used,
          get_from-update_self n (suc s) (ground arith) (omega arith) free
              (λ j p. full j (omega arith)),
        )
  ]

  -- Other keys are found as before, if none of them stands behind the slot.
  pub get_from-update_other :
      (n s b q : ℕ)
      → s + n ≡ b
      → slot i ≡ none
      → new.key ≢ q
      → ((j : ℕ) (d : Element) → i < j → j < b → slot j ≡ some d → d.key ≢ q)
      → get_from n (update slot i new) s q ≡ get_from n slot s q
  unfolding get_from
  get_from-update_other zero s b q e free ne behind = refl
  get_from-update_other (suc n) s b q e free ne behind = elim (Bool-cases (i == s)) [
    | inl same ↦
        let e' : i ≡ s = ground arith in
        let rest =
          get_from-absent n (update slot i new) (suc s) b q (omega arith)
            (λ j d lo hi used. behind j d (omega arith) hi (ground arith)) in
        ground (arith, ap slot e', rest)
    | inr other ↦ ground (arith, get_from-update_other n (suc s) b q (omega arith) free ne behind)
  ]
