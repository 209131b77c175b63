-- ===== src/Counter/Values.antt =====
-- What `counter_read` of server/device_mgr.c answers where the arrays are as long as they say.
use mathlib.Core.List.{append-nil, append_assoc}
use native.Mathlib.Decide.{dec_lt}
use p4runtime_grpcpp.Base.Int.{pos, to_int32}
use p4runtime_grpcpp.Base.{
  ℕ, zero, suc, ◌+◌, ◌^◌, ◌≤◌, ◌<◌, ◌≡◌, refl, ap, ap₂, sym, ◌∙◌, ◌⊎◌, true, false, List, [], ◌∷◌,
  ◌++◌, map, none, some, length, drop, drop-lt, drop_all, get_elem?, get_elem?-ge, get_elem?-lt,
  ◌%◌, ok, fault, out_of_bounds, arith,
}
use p4runtime_grpcpp.Counter.{
  load, read_value, counter_read_one, read_all, is_missing, counter_read,
}
use p4runtime_grpcpp.Device.{Device, CounterArray, CounterRead}
use p4runtime_grpcpp.IdMap.{Element, get_element}
use p4runtime_grpcpp.Proto.{status_ok, CounterEntry, Entity, counter_entry, ReadResponse}

abbrev pub array_of : List ℕ → CounterArray
array_of values = record { values = some values; size = pos (length values) }

-- The counter is known, and the data plane has arrays of its bytes and its packets, not empty and
-- shorter than an `int` can say.
pub record Answers (dm : Device) (counter_id : ℕ) (bs ps : List ℕ) : Type 0 where
  pub elem : Element
  pub known : get_element dm.id_map counter_id ≡ some elem
  pub get : CounterRead
  pub getter : dm.get_counter_by_name ≡ some get
  pub bytes : get elem.value true ≡ array_of bs
  pub packets : get elem.value false ≡ array_of ps
  pub some_bytes : 0 < length bs
  pub some_packets : 0 < length ps
  pub few_bytes : length bs < 2 ^ 31
  pub few_packets : length ps < 2 ^ 31

-- The entry with the two values in it.
abbrev pub with_values : CounterEntry → ℕ → ℕ → CounterEntry
with_values e b n = record e {
  counter_data = some (record { byte_count = pos b; packet_count = pos n });
}

read_value_lt :
    (values : List ℕ) (i v : ℕ)
    → 0 < length values
    → length values < 2 ^ 31
    → get_elem? values i ≡ some v
    → read_value (array_of values) (pos i) ≡ ok (some v)
unfolding read_value load
read_value_lt values i v filled few at = ground arith

read_value_ge :
    (values : List ℕ) (i : ℕ)
    → 0 < length values
    → length values < 2 ^ 31
    → length values ≤ i
    → read_value (array_of values) (pos i) ≡ fault out_of_bounds
unfolding read_value load
read_value_ge values i filled few ge = ground (arith, get_elem?-ge values i)

-- Arrays as a request meets them: not empty, and shorter than an `int` can say.
abbrev pub IsArray : List ℕ → Type 0
IsArray values = (0 < length values) × (length values < 2 ^ 31)

pub read_one_lt :
    (bs ps : List ℕ) (i b n : ℕ) (e : CounterEntry)
    → IsArray bs
    → IsArray ps
    → get_elem? bs i ≡ some b
    → get_elem? ps i ≡ some n
    → counter_read_one (array_of bs) (array_of ps) (pos i) e ≡ ok (with_values e b n)
unfolding counter_read_one
read_one_lt bs ps i b n e hb hp at_b at_n =
    ground (arith, read_value_lt bs i b hb.0 hb.1 at_b, read_value_lt ps i n hp.0 hp.1 at_n)

pub read_one_ge :
    (bs ps : List ℕ) (i : ℕ) (e : CounterEntry)
    → IsArray bs
    → IsArray ps
    → (length bs ≤ i) ⊎ (length ps ≤ i)
    → counter_read_one (array_of bs) (array_of ps) (pos i) e ≡ fault out_of_bounds
unfolding counter_read_one
read_one_ge bs ps i e hb hp out = elim (dec_lt i (length bs)) [
  | no beyond ↦ ground (arith, read_value_ge bs i hb.0 hb.1)
  | yes within ↦
      let (b, _, at) = drop-lt i bs within in
      ground (arith, read_value_lt bs i b hb.0 hb.1 at, read_value_ge ps i hp.0 hp.1)
]

-- One entry for each index from `i` on, with the values that stand there.
abbrev pub entries_from : ℕ → ℕ → List ℕ → List ℕ → List CounterEntry
entries_from id i [] ps = []
entries_from id i (b ∷ bs) [] = []
entries_from id i (b ∷ bs) (n ∷ ps) =
    with_values (record { counter_id = id; index = some (pos i); counter_data = none }) b n
    ∷ entries_from id (suc i) bs ps

read_all-entries :
    (id : ℕ) (bs ps : List ℕ) (n i : ℕ) (done : List Entity)
    → IsArray bs
    → IsArray ps
    → i + n ≡ length bs
    → length ps ≡ length bs
    → read_all (array_of bs) (array_of ps) id n i done
      ≡ ok (done ++ map counter_entry (entries_from id i (drop i bs) (drop i ps)))
unfolding read_all
read_all-entries id bs ps zero i done hb hp e same =
    let end_b = drop_all i bs (omega arith) in
    ap ok (
      sym (append-nil done)
      ∙ ap (λ x. done ++ map counter_entry x) (sym (ap₂ (entries_from id i) end_b refl)))
read_all-entries id bs ps (suc n) i done hb hp e same =
    let (b, from_b, at_b) = drop-lt i bs (omega arith) in
    let (p, from_p, at_p) = drop-lt i ps (omega arith) in
    let entry : CounterEntry =
      with_values (record { counter_id = id; index = some (pos i); counter_data = none }) b p in
    let rest =
      read_all-entries id bs ps n (suc i) (done ++ counter_entry entry ∷ []) hb hp (omega arith)
        same in
    rw (read_one_lt bs ps i b p _ hb hp at_b at_p) (
      rest
      ∙ ap ok (
          append_assoc done (counter_entry entry ∷ []) _
          ∙ ap (λ x. done ++ map counter_entry x) (sym (ap₂ (entries_from id i) from_b from_p))))

pub is_missing_array : (values : List ℕ) → is_missing (array_of values) ≡ false
unfolding is_missing
is_missing_array values = refl

pub to_int32_small : (i : ℕ) → i % 2 ^ 32 < 2 ^ 31 → to_int32 i ≡ pos (i % 2 ^ 32)
to_int32_small i h = ground arith

module _ (dm : Device) (entry : CounterEntry) (response : ReadResponse) (bs ps : List ℕ)
    (answers : Answers dm entry.counter_id bs ps) where
  open answers use {known, getter, bytes, packets, some_bytes, some_packets, few_bytes, few_packets}

  hb : IsArray bs
  hb = (some_bytes, few_bytes)

  hp : IsArray ps
  hp = (some_packets, few_packets)

  -- With arrays that are not empty and an index that both have, taken modulo 2 ^ 32: the response
  -- gets the entry, with the values that stand there.
  pub counter_read-index :
      (i b n : ℕ)
      → entry.index ≡ some (pos i)
      → get_elem? bs (i % 2 ^ 32) ≡ some b
      → get_elem? ps (i % 2 ^ 32) ≡ some n
      → counter_read dm entry response
        ≡ ok (
          status_ok,
          record { entities = response.entities ++ counter_entry (with_values entry b n) ∷ [] },
        )
  unfolding counter_read
  counter_read-index i b n at at_b at_n =
      let within = get_elem?-lt bs (i % 2 ^ 32) b at_b in
      let is = to_int32_small i (omega arith) in
      ground (
        arith,
        known,
        getter,
        bytes,
        packets,
        is,
        is_missing_array bs,
        read_one_lt bs ps (i % 2 ^ 32) b n entry hb hp at_b at_n,
      )

  -- With two arrays of one length, not empty, and no index: the response gets an entry for each
  -- index, in order, with the values that stand there.
  pub counter_read-wildcard :
      entry.index ≡ none
      → length ps ≡ length bs
      → counter_read dm entry response
        ≡ ok (
          status_ok,
          record {
            entities =
                response.entities ++ map counter_entry (entries_from entry.counter_id 0 bs ps);
          },
        )
  unfolding counter_read
  counter_read-wildcard at same = ground (
    arith,
    known,
    getter,
    bytes,
    packets,
    is_missing_array bs,
    read_all-entries entry.counter_id bs ps (length bs) 0 response.entities hb hp (omega arith)
        same,
  )
