-- ===== src/Counter/Outcome.antt =====
-- Which reads `counter_read` of server/device_mgr.c answers, which it refuses, and which end the
-- process, whatever arrays the data plane returns.
use p4runtime_grpcpp.Base.Int.{ℤ, pos, negsuc, pos_part, to_int32}
use p4runtime_grpcpp.Base.{
  ℕ, ◌<◌, ◌≡◌, ◌⊎◌, ◌↔◌, inl, inr, refl, max, true, false, ◌&&◌, List, [], ◌∷◌, ◌++◌, Option, none,
  some, Option-cases, Bool-cases, Run, ok, fault, null_pointer, >>=-eq-ok, arith,
}
use p4runtime_grpcpp.Counter.{
  counter_read_one, read_all, is_missing, counter_not_found, counter_read,
}
use p4runtime_grpcpp.Counter.Inside.{
  IsAbsent, is_missing-IsAbsent, AreInside, read_one-AreInside, AreInside-read_one,
  read_all-AreInside, AreInside-read_all,
}
use p4runtime_grpcpp.Device.{Device, CounterArray, CounterRead}
use p4runtime_grpcpp.IdMap.{Element, get_element}
use p4runtime_grpcpp.Proto.{
  StatusCode, Status, status_of, status_ok, CounterEntry, Entity, counter_entry, ReadResponse,
}

-- What may be asked of two arrays: a negative index, an index at which both are inside, or no index,
-- if they are inside at each of the larger size.
abbrev pub FitsIndex : CounterArray → CounterArray → Option ℤ → Type 0
FitsIndex bytes packets none =
    (i : ℕ)
    → i < max (pos_part packets.size) (pos_part bytes.size)
    → AreInside bytes packets (pos i)
FitsIndex bytes packets (some (negsuc n)) = Unit
FitsIndex bytes packets (some (pos i)) = AreInside bytes packets (to_int32 i)

-- The counter is known, the data plane can be asked, and has no array or two that the index fits.
abbrev pub IsAnswered : Device → CounterEntry → Type 0
IsAnswered dm entry =
    (elem : Element) × (get : CounterRead) × (get_element dm.id_map entry.counter_id ≡ some elem)
    × (dm.get_counter_by_name ≡ some get)
    × ((IsAbsent (get elem.value true) × IsAbsent (get elem.value false))
        ⊎ FitsIndex (get elem.value true) (get elem.value false) entry.index)

module _ (dm : Device) (entry : CounterEntry) (response : ReadResponse) (elem : Element)
    (get : CounterRead) (bytes packets : CounterArray)
    (known : get_element dm.id_map entry.counter_id ≡ some elem)
    (getter : dm.get_counter_by_name ≡ some get) (bytes_are : get elem.value true ≡ bytes)
    (packets_are : get elem.value false ≡ packets)
    (there : (is_missing bytes && is_missing packets) ≡ false) where
  -- A read that ends had an index that the arrays fit.
  counter_read-FitsIndex :
      (index : Option ℤ) (r : Status × ReadResponse)
      → entry.index ≡ index
      → counter_read dm entry response ≡ ok r
      → FitsIndex bytes packets index
  unfolding counter_read
  counter_read-FitsIndex none r is run =
      let next : List Entity → Run (Status × ReadResponse) =
        λ entities. ok (status_ok, record { entities = entities }) in
      let (entities, all, _) =
        >>=-eq-ok
          (read_all bytes packets entry.counter_id
            (max (pos_part packets.size) (pos_part bytes.size)) 0 response.entities)
          next {result = r}
          (ground (arith, known, getter, bytes_are, packets_are, is, there, run)) in
      λ i lt.
        read_all-AreInside bytes packets entry.counter_id _ 0 response.entities entities all i
          (omega arith) (omega arith)
  counter_read-FitsIndex (some (negsuc n)) r is run = tt
  counter_read-FitsIndex (some (pos i)) r is run =
      let next : CounterEntry → Run (Status × ReadResponse) =
        λ e. ok (status_ok, record { entities = response.entities ++ counter_entry e ∷ [] }) in
      let (e, one, _) =
        >>=-eq-ok (counter_read_one bytes packets (to_int32 i) entry) next {result = r}
          (ground (arith, known, getter, bytes_are, packets_are, is, there, run)) in
      read_one-AreInside bytes packets (to_int32 i) entry e one

  -- A read with an index that the arrays fit ends.
  FitsIndex-counter_read :
      (index : Option ℤ)
      → entry.index ≡ index
      → FitsIndex bytes packets index
      → (r : Status × ReadResponse) × (counter_read dm entry response ≡ ok r)
  unfolding counter_read
  FitsIndex-counter_read none is fits =
      let (entities, all) =
        AreInside-read_all bytes packets entry.counter_id
          (max (pos_part packets.size) (pos_part bytes.size)) 0 response.entities
          (λ j lo hi. fits j (omega arith)) in
      (
        (status_ok, record { entities = entities }),
        ground (arith, known, getter, bytes_are, packets_are, is, there, all),
      )
  FitsIndex-counter_read (some (negsuc n)) is fits = (
    (status_of StatusCode.unknown "counter index negative", response),
    ground (arith, known, getter, bytes_are, packets_are, is, there),
  )
  FitsIndex-counter_read (some (pos i)) is fits =
      let (e, one) = AreInside-read_one bytes packets (to_int32 i) entry fits in
      (
        (status_ok, record { entities = response.entities ++ counter_entry e ∷ [] }),
        ground (arith, known, getter, bytes_are, packets_are, is, there, one),
      )

-- A read comes to an end exactly if the counter is known and the data plane can be asked, and of
-- its two arrays either neither is there, or the index is negative, or both, as far as they are
-- read, hold the index modulo 2 ^ 32 as an `int`, or without an index each index below the larger
-- of the two sizes.
pub counter_read-ends_iff :
    (dm : Device) (entry : CounterEntry) (response : ReadResponse)
    → ((r : Status × ReadResponse) × (counter_read dm entry response ≡ ok r)) ↔ IsAnswered dm entry
unfolding counter_read
counter_read-ends_iff dm entry response = (
  λ ended.
      let (r, run) = ended in
      let known : (elem : Element) × (get_element dm.id_map entry.counter_id ≡ some elem) =
        elim (Option-cases (get_element dm.id_map entry.counter_id)) [
          | inl missing ↦ absurd (ground (arith, missing, run))
          | inr found ↦ found
        ] in
      let (elem, found) = known in
      let getter : (get : CounterRead) × (dm.get_counter_by_name ≡ some get) =
        elim (Option-cases dm.get_counter_by_name) [
          | inl missing ↦ absurd (ground (arith, missing, found, run))
          | inr set ↦ set
        ] in
      let (get, set) = getter in
      let bytes : CounterArray = get elem.value true in
      let packets : CounterArray = get elem.value false in
      (
        elem,
        get,
        found,
        set,
        elim (Bool-cases (is_missing bytes && is_missing packets)) [
          | inl gone ↦ inl (
            (is_missing-IsAbsent bytes).0 (ground arith),
            (is_missing-IsAbsent packets).0 (ground arith),
          )
          | inr there ↦ inr (
              counter_read-FitsIndex dm entry response elem get bytes packets found set
                (refl {a = bytes}) (refl {a = packets}) there entry.index r refl run)
        ],
      ),
  λ answered.
      let (elem, get, found, set, outcome) = answered in
      let bytes : CounterArray = get elem.value true in
      let packets : CounterArray = get elem.value false in
      elim (Bool-cases (is_missing bytes && is_missing packets)) [
        | inl gone ↦ ((counter_not_found elem.value, response), ground (arith, found, set, gone))
        | inr there ↦ elim outcome [
          | inl (no_bytes, no_packets) ↦ absurd (
              ground (
                arith,
                (is_missing-IsAbsent bytes).1 no_bytes,
                (is_missing-IsAbsent packets).1 no_packets,
              ))
          | inr fits ↦
              FitsIndex-counter_read dm entry response elem get bytes packets found set
                (refl {a = bytes}) (refl {a = packets}) there entry.index refl fits
        ]
      ],
)

-- A read of a counter that is not known, or without a function to ask the data plane, follows a
-- null pointer. Where the data plane has neither array the answer is INVALID_ARGUMENT with the
-- counter's name, and where it has one a negative index is refused as UNKNOWN; the response stays
-- as it was.
pub counter_read-refuses :
    (dm : Device) (entry : CounterEntry) (response : ReadResponse)
    (result : Run (Status × ReadResponse))
    → (((get_element dm.id_map entry.counter_id ≡ none) ⊎ (dm.get_counter_by_name ≡ none))
        × (result ≡ fault null_pointer))
      ⊎ ((elem : Element) × (get : CounterRead) × (get_element dm.id_map entry.counter_id
            ≡ some elem)
          × (dm.get_counter_by_name ≡ some get)
          × ((IsAbsent (get elem.value true)
                × IsAbsent (get elem.value false)
                × (result ≡ ok (counter_not_found elem.value, response)))
              ⊎ ((n : ℕ) × (entry.index ≡ some (negsuc n))
                  × ¬ (IsAbsent (get elem.value true) × IsAbsent (get elem.value false))
                  × (result
                      ≡ ok (status_of StatusCode.unknown "counter index negative", response)))))
    → counter_read dm entry response ≡ result
unfolding counter_read
counter_read-refuses dm entry response result (inl (inl unknown, is)) = ground (arith, unknown, is)
counter_read-refuses dm entry response result (inl (inr unset, is)) =
    elim (Option-cases (get_element dm.id_map entry.counter_id)) [
      | inl unknown ↦ ground (arith, unknown, is)
      | inr (elem, found) ↦ ground (arith, found, unset, is)
    ]
counter_read-refuses dm entry response result
      (inr (elem, get, found, set, inl (bytes, packets, is))) =
    ground (
      arith,
      found,
      set,
      (is_missing-IsAbsent (get elem.value true)).1 bytes,
      (is_missing-IsAbsent (get elem.value false)).1 packets,
      is,
    )
counter_read-refuses dm entry response result
      (inr (elem, get, found, set, inr (n, negative, present, is))) =
    elim (Bool-cases (is_missing (get elem.value true) && is_missing (get elem.value false))) [
      | inl gone ↦ absurd (
          present
            ((is_missing-IsAbsent _).0 (ground arith), (is_missing-IsAbsent _).0 (ground arith)))
      | inr there ↦ ground (arith, found, set, there, negative, is)
    ]
