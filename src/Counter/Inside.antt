-- ===== src/Counter/Inside.antt =====
-- The loads of `counter_read_one` in server/device_mgr.c: when they are inside the arrays that the
-- data plane returned, whatever these are.
use native.Mathlib.Decide.{dec_lt}
use p4runtime_grpcpp.Base.Int.{ℤ, pos, negsuc, to_uint32}
use p4runtime_grpcpp.Base.{
  ℕ, zero, suc, ◌+◌, ◌≤◌, ◌<◌, ◌≡◌, ◌⊎◌, ◌↔◌, inl, inr, refl, true, List, [], ◌∷◌, ◌++◌, Option,
  none, some, Option-cases, subst, length, get_elem?-ge, drop-lt, ok, >>=-eq-ok, arith,
}
use p4runtime_grpcpp.Counter.{
  load, read_value, counter_read_one, set_packet_count, set_byte_count, read_all, is_missing,
}
use p4runtime_grpcpp.Device.{CounterArray}
use p4runtime_grpcpp.Proto.{CounterEntry, Entity, counter_entry}

-- The pointer is null, or the size is as it was before the call.
abbrev pub IsAbsent : CounterArray → Type 0
IsAbsent array = (array.values ≡ none) ⊎ (array.size ≡ negsuc 0)

-- Nothing of the array is read, or the index lies in what may be read of it.
abbrev pub IsInside : CounterArray → ℤ → Type 0
IsInside array index =
    (array.values ≡ none)
    ⊎ ((to_uint32 array.size ≡ 0)
        ⊎ ((values : List ℕ) × (n : ℕ) × (array.values ≡ some values)
            × (index ≡ pos n)
            × (n < length values)))

pub is_missing-IsAbsent : (array : CounterArray) → (is_missing array ≡ true) ↔ IsAbsent array
unfolding is_missing
is_missing-IsAbsent array = (λ h. ground arith, λ h. ground arith)

read_value-IsInside :
    (array : CounterArray) (index : ℤ) (v : Option ℕ)
    → read_value array index ≡ ok v
    → IsInside array index
unfolding read_value load
read_value-IsInside array (negsuc k) v run = ground arith
read_value-IsInside array (pos n) v run = elim (Option-cases array.values) [
  | inl missing ↦ inl missing
  | inr (values, are) ↦ elim (dec_lt 0 (to_uint32 array.size)) [
    | no empty ↦ inr (inl (omega arith))
    | yes filled ↦ elim (dec_lt n (length values)) [
      | yes within ↦ inr (inr (values, n, are, refl, within))
      | no beyond ↦ absurd (ground (arith, are, get_elem?-ge values n))
    ]
  ]
]

IsInside-read_value :
    (array : CounterArray) (index : ℤ)
    → IsInside array index
    → (v : Option ℕ) × (read_value array index ≡ ok v)
unfolding read_value load
IsInside-read_value array index (inl missing) = (none, ground (arith, missing))
IsInside-read_value array index (inr (inl empty)) = elim (Option-cases array.values) [
  | inl missing ↦ (none, ground (arith, missing))
  | inr (values, are) ↦ (none, ground (arith, are, empty))
]
IsInside-read_value array index (inr (inr (values, n, are, is, within))) =
    let (v, _, at) = drop-lt n values within in
    elim (dec_lt 0 (to_uint32 array.size)) [
      | yes filled ↦ (some v, ground (arith, are, is, at))
      | no empty ↦ (none, ground (arith, are))
    ]

-- Both arrays are inside at the index.
module _ (bytes packets : CounterArray) where
  abbrev pub AreInside : ℤ → Type 0
  AreInside index = IsInside bytes index × IsInside packets index

  pub read_one-AreInside :
      (index : ℤ) (entry e : CounterEntry)
      → counter_read_one bytes packets index entry ≡ ok e
      → AreInside index
  unfolding counter_read_one
  read_one-AreInside index entry e run =
      let (b, first, rest) = >>=-eq-ok (read_value bytes index) _ run in
      let (n, second, _) = >>=-eq-ok (read_value packets index) _ rest in
      (read_value-IsInside bytes index b first, read_value-IsInside packets index n second)

  pub AreInside-read_one :
      (index : ℤ) (entry : CounterEntry)
      → AreInside index
      → (e : CounterEntry) × (counter_read_one bytes packets index entry ≡ ok e)
  unfolding counter_read_one
  AreInside-read_one index entry inside =
      let (b, first) = IsInside-read_value bytes index inside.0 in
      let (n, second) = IsInside-read_value packets index inside.1 in
      (set_packet_count n (set_byte_count b entry), rw (first, second) refl)

  pub read_all-AreInside :
      (id n i : ℕ) (entities r : List Entity)
      → read_all bytes packets id n i entities ≡ ok r
      → (j : ℕ) → i ≤ j
      → j < i + n
      → AreInside (pos j)
  unfolding read_all
  read_all-AreInside id zero i entities r run j lo hi = absurd (omega arith)
  read_all-AreInside id (suc n) i entities r run j lo hi =
      let entry : CounterEntry = record {
        counter_id = id;
        index = some (pos i);
        counter_data = none;
      } in
      let (e, one, rest) = >>=-eq-ok (counter_read_one bytes packets (pos i) entry) _ run in
      elim (dec_lt i j) [
        | yes later ↦ read_all-AreInside id n (suc i) _ r rest j (omega arith) (omega arith)
        | no here ↦
            let same : i ≡ j = omega arith in
            subst (λ (k : ℕ). AreInside (pos k)) same (read_one-AreInside (pos i) entry e one)
      ]

  pub AreInside-read_all :
      (id n i : ℕ) (entities : List Entity)
      → ((j : ℕ) → i ≤ j → j < i + n → AreInside (pos j))
      → (r : List Entity) × (read_all bytes packets id n i entities ≡ ok r)
  unfolding read_all
  AreInside-read_all id zero i entities inside = (entities, refl)
  AreInside-read_all id (suc n) i entities inside =
      let (e, one) =
        AreInside-read_one (pos i)
          (record { counter_id = id; index = some (pos i); counter_data = none })
          (inside i (omega arith) (omega arith)) in
      let (r, rest) =
        AreInside-read_all id n (suc i) (entities ++ counter_entry e ∷ [])
          (λ j lo hi. inside j (omega arith) (omega arith)) in
      (r, rw one rest)
