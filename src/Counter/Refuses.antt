-- ===== src/Counter/Refuses.antt =====
-- What `counter_read` of server/device_mgr.c leaves of the response: nothing new where it refuses, and
-- otherwise entries behind those that were there.
use p4runtime_grpcpp.Base.{
  ℕ, ◌≡◌, ◌⊎◌, inl, inr, Run, refl, subst, sym, ap, ap₂, ◌∙◌, max, true, false, ◌&&◌, List, [], ◌∷◌,
  ◌++◌, Option, none, some, Option-cases, Bool-cases, ok, >>=-eq-ok, arith,
}
use p4runtime_grpcpp.Base.Int.{ℤ, pos, negsuc, pos_part, to_int32}
use p4runtime_grpcpp.Counter.{
  counter_read_one, read_all, is_missing, counter_not_found, counter_read,
}
use p4runtime_grpcpp.Counter.Appends.{label-read_one, read_all-Appends, labels_for, Appends}
use p4runtime_grpcpp.Counter.Inside.{IsAbsent, is_missing-IsAbsent}
use p4runtime_grpcpp.Device.{Device, CounterArray, CounterRead}
use p4runtime_grpcpp.IdMap.{Element, get_element}
use p4runtime_grpcpp.Proto.{
  StatusCode, Status, status_of, status_ok, is_ok, CounterEntry, Entity, counter_entry,
  ReadResponse,
}

abbrev pub negative_index : Status
negative_index = status_of StatusCode.unknown "counter index negative"

-- The counter is known, and the data plane gives the two arrays for it.
pub record Gives (dm : Device) (entry : CounterEntry) (elem : Element)
    (bytes packets : CounterArray) : Type 0 where
  pub known : get_element dm.id_map entry.counter_id ≡ some elem
  pub get : CounterRead
  pub getter : dm.get_counter_by_name ≡ some get
  pub bytes_are : get elem.value true ≡ bytes
  pub packets_are : get elem.value false ≡ packets

-- Why a read is refused, and with which status.
pub data RefusedWith (dm : Device) (entry : CounterEntry) : Status → Type 0 where
  no_arrays :
      (elem : Element) (bytes packets : CounterArray)
      → Gives dm entry elem bytes packets
      → IsAbsent bytes
      → IsAbsent packets
      → RefusedWith dm entry (counter_not_found elem.value)
  negative :
      (elem : Element) (bytes packets : CounterArray) (n : ℕ)
      → Gives dm entry elem bytes packets
      → ¬ (IsAbsent bytes × IsAbsent packets)
      → entry.index ≡ some (negsuc n)
      → RefusedWith dm entry negative_index

Gives-same :
    (dm : Device) (entry : CounterEntry) (elem elem' : Element)
    (bytes packets bytes' packets' : CounterArray)
    → Gives dm entry elem bytes packets
    → Gives dm entry elem' bytes' packets'
    → (elem ≡ elem') × (bytes ≡ bytes') × (packets ≡ packets')
Gives-same dm entry elem elem' bytes packets bytes' packets' g g' =
    let elems : elem ≡ elem' = ground (arith, g.known, g'.known) in
    let gets : g.get ≡ g'.get = ground (arith, g.getter, g'.getter) in
    (
      elems,
      sym g.bytes_are ∙ ap₂ (λ f (x : Element). f x.value true) gets elems ∙ g'.bytes_are,
      sym g.packets_are ∙ ap₂ (λ f (x : Element). f x.value false) gets elems ∙ g'.packets_are,
    )

-- Arrays that are there and an index that is not negative are no reason to refuse.
not_refused :
    (dm : Device) (entry : CounterEntry) (elem : Element) (bytes packets : CounterArray)
    (reason : Status)
    → Gives dm entry elem bytes packets
    → ¬ (IsAbsent bytes × IsAbsent packets)
    → ((n : ℕ) → ¬ (entry.index ≡ some (negsuc n)))
    → ¬ RefusedWith dm entry reason
not_refused dm entry elem bytes packets reason g there fits
      (no_arrays elem' bytes' packets' g' no_bytes no_packets) =
    let (_, same, same') = Gives-same dm entry elem elem' bytes packets bytes' packets' g g' in
    there (subst IsAbsent (sym same) no_bytes, subst IsAbsent (sym same') no_packets)
not_refused dm entry elem bytes packets reason g there fits
      (negative elem' bytes' packets' n g' there' is) =
    fits n is

-- What a read that ends answers, and what it leaves of the response.
abbrev pub ReadOutcome : Device → CounterEntry → ReadResponse → Status × ReadResponse → Type 0
ReadOutcome dm entry response r =
    (RefusedWith dm entry r.0 × (r.1 ≡ response))
    ⊎ ((¬ ((reason : Status) × RefusedWith dm entry reason))
        × (r.0 ≡ status_ok)
        × (elem : Element) × (bytes : CounterArray) × (packets : CounterArray) × Gives dm entry elem
            bytes packets
        × Appends response.entities (labels_for entry bytes packets) r.1.entities)

module _ (dm : Device) (entry : CounterEntry) (response : ReadResponse) (r : Status × ReadResponse)
    (elem : Element) (bytes packets : CounterArray) (gives : Gives dm entry elem bytes packets)
    (run : counter_read dm entry response ≡ ok r) where
  by_index :
      (index : Option ℤ)
      → entry.index ≡ index
      → (is_missing bytes && is_missing packets) ≡ false
      → ¬ (IsAbsent bytes × IsAbsent packets)
      → ReadOutcome dm entry response r
  unfolding counter_read
  by_index (some (negsuc n)) is there present =
      let e : (negative_index, response) ≡ r =
        ground
          (arith, gives.known, gives.getter, gives.bytes_are, gives.packets_are, is, there, run) in
      inl (
        subst (RefusedWith dm entry) (ap (λ (x : Status × ReadResponse). x.0) e)
            (negative elem bytes packets n gives present is),
        sym (ap (λ (x : Status × ReadResponse). x.1) e),
      )
  by_index (some (pos i)) is there present =
      let next : CounterEntry → Run (Status × ReadResponse) =
        λ e. ok (status_ok, record { entities = response.entities ++ counter_entry e ∷ [] }) in
      let (e, one, answers) =
        >>=-eq-ok (counter_read_one bytes packets (to_int32 i) entry) next {result = r} (
          ground (
            arith, gives.known, gives.getter, gives.bytes_are, gives.packets_are, is, there, run,
          )) in
      inr (
        λ refused.
            not_refused dm entry elem bytes packets refused.0 gives present
              (λ n below. ground (arith, is, below)) refused.1,
        ground arith,
        elem,
        bytes,
        packets,
        gives,
        (
          e ∷ [],
          ground arith,
          ground (arith, is, label-read_one bytes packets (to_int32 i) entry e one),
        ),
      )
  by_index none is there present =
      let n : ℕ = max (pos_part packets.size) (pos_part bytes.size) in
      let next : List Entity → Run (Status × ReadResponse) =
        λ entities. ok (status_ok, record { entities = entities }) in
      let (entities, all, answers) =
        >>=-eq-ok (read_all bytes packets entry.counter_id n 0 response.entities) next {result = r}
          (ground (
            arith, gives.known, gives.getter, gives.bytes_are, gives.packets_are, is, there, run,
          )) in
      let (rows, are, labelled) =
        read_all-Appends bytes packets entry.counter_id n 0 response.entities entities all in
      inr (
        λ refused.
            not_refused dm entry elem bytes packets refused.0 gives present
              (λ n below. ground (arith, is, below)) refused.1,
        ground arith,
        elem,
        bytes,
        packets,
        gives,
        (rows, ground (arith, are), ground (arith, is, labelled)),
      )

  by_arrays : ReadOutcome dm entry response r
  unfolding counter_read
  by_arrays = elim (Bool-cases (is_missing bytes && is_missing packets)) [
    | inr there ↦ by_index entry.index refl there (λ absent. ground (
      arith,
      there,
      (is_missing-IsAbsent bytes).1 absent.0,
      (is_missing-IsAbsent packets).1 absent.1,
    ))
    | inl gone ↦
        let e : (counter_not_found elem.value, response) ≡ r =
          ground
            (arith, gives.known, gives.getter, gives.bytes_are, gives.packets_are, gone, run) in
        inl (
          subst (RefusedWith dm entry) (ap (λ (x : Status × ReadResponse). x.0) e) (
              no_arrays elem bytes packets gives ((is_missing-IsAbsent bytes).0 (ground arith))
                ((is_missing-IsAbsent packets).0 (ground arith))),
          sym (ap (λ (x : Status × ReadResponse). x.1) e),
        )
  ]

-- A read that comes to an end is refused exactly if the data plane has neither array of the
-- counter, as INVALID_ARGUMENT with the counter's name, or has one and the index is negative, as
-- UNKNOWN: then the response stays as it was. Otherwise the status is `OK`, and behind the entities
-- that were there come entries of the counter: one with the index that was asked for, or, without
-- one, one for each index below the larger of the two sizes, in order.
pub counter_read-outcome :
    (dm : Device) (entry : CounterEntry) (response : ReadResponse) (r : Status × ReadResponse)
    → counter_read dm entry response ≡ ok r
    → ReadOutcome dm entry response r
unfolding counter_read
counter_read-outcome dm entry response r run =
    elim (Option-cases (get_element dm.id_map entry.counter_id)) [
      | inl unknown ↦ absurd (ground (arith, unknown, run))
      | inr (elem, known) ↦ elim (Option-cases dm.get_counter_by_name) [
        | inl unset ↦ absurd (ground (arith, known, unset, run))
        | inr (get, getter) ↦
            by_arrays dm entry response r elem (get elem.value true) (get elem.value false)
              (record {
                known = known;
                get = get;
                getter = getter;
                bytes_are = refl;
                packets_are = refl;
              })
              run
      ]
    ]

pub bad_reason :
    (dm : Device) (entry : CounterEntry) (reason : Status)
    → RefusedWith dm entry reason
    → is_ok reason ≡ false
bad_reason dm entry reason (no_arrays elem bytes packets gives no_bytes no_packets) = refl
bad_reason dm entry reason (negative elem bytes packets n gives there is) = refl
