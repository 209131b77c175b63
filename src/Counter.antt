-- ===== src/Counter.antt =====
-- The counters of server/device_mgr.c: `counter_write`, `counter_read_one` and `counter_read`.
pub mod Values
pub mod Bounds
pub mod Inside
pub mod Outcome
pub mod Appends
pub mod Refuses
use p4runtime_grpcpp.Base.Int.{ℤ, pos, negsuc, is_negative, pos_part, to_uint32, to_int32}
use p4runtime_grpcpp.Base.{
  ℕ, zero, suc, max, Bool, true, false, not, List, [], ◌∷◌, ◌++◌, Option, none, some, Bytes,
  get_elem?, Run, ok, fault, out_of_bounds, deref, ◌>>=◌, ltb, ◌==◌, ◌&&◌, if◌then◌else◌,
}
use p4runtime_grpcpp.Device.{Device, CounterArray, P4Ids}
use p4runtime_grpcpp.IdMap.{get_element}
use p4runtime_grpcpp.Proto.{
  StatusCode, Status, status_of, status_ok, CounterData, CounterEntry, Entity, counter_entry,
  UpdateType, ReadResponse,
}
use p4runtime_grpcpp.Table.{check_p4_id}

unfoldable pub counter_write : Device → UpdateType → CounterEntry → Status
counter_write dm type entry =
    if not (check_p4_id entry.counter_id P4Ids.counter)
    then status_of StatusCode.unknown "P4ID is not unknown"
    else elim (entry.index) [
      | none ↦ status_of StatusCode.unimplemented "Wildcard write is not supported"
      | some index ↦
          if is_negative index
          then status_of StatusCode.unimplemented "A negative number is not a valid index value."
          else status_of StatusCode.unknown "Unknown update message"
    ]

-- `values[index]` for an `int` index.
unfoldable pub load : List ℕ → ℤ → Run ℕ
load values (negsuc n) = fault out_of_bounds
load values (pos n) = elim (get_elem? values n) [ none ↦ fault out_of_bounds | some v ↦ ok v ]

abbrev pub no_data : CounterData
no_data = record { byte_count = pos 0; packet_count = pos 0 }

-- `entry->mutable_data()`: the data, which is there from now on.
abbrev pub mutable_data : CounterEntry → CounterData
mutable_data e = elim (e.counter_data) [ none ↦ no_data | some d ↦ d ]

-- One half of `counter_read_one`: the value is read if there is an array and its size, as a
-- `uint32_t`, is positive.
unfoldable pub read_value : CounterArray → ℤ → Run (Option ℕ)
read_value array index = elim (array.values) [
  | none ↦ ok none
  | some values ↦
      if ltb 0 (to_uint32 array.size) then (do v ← load values index; ok (some v)) else ok none
]

abbrev pub set_byte_count : Option ℕ → CounterEntry → CounterEntry
set_byte_count none e = e
set_byte_count (some v) e = record e {
  counter_data = some (record (mutable_data e) { byte_count = pos v });
}

abbrev pub set_packet_count : Option ℕ → CounterEntry → CounterEntry
set_packet_count none e = e
set_packet_count (some v) e = record e {
  counter_data = some (record (mutable_data e) { packet_count = pos v });
}

unfoldable pub counter_read_one : CounterArray → CounterArray → ℤ → CounterEntry → Run CounterEntry
unfolding read_value load
counter_read_one bytes packets index entry = do
  b ← read_value bytes index
  n ← read_value packets index
  ok (set_packet_count n (set_byte_count b entry))

-- `pointer == 0 || size == -1`.
unfoldable pub is_missing : CounterArray → Bool
is_missing array = elim (array.values) [
  | none ↦ true
  | some values ↦ elim (array.size) [ pos n ↦ false | negsuc n ↦ n == 0 ]
]

-- The loop over all indices, with `n` of them left: the entries are added one by one.
unfoldable pub read_all : CounterArray → CounterArray → ℕ → ℕ → ℕ → List Entity → Run (List Entity)
read_all bytes packets counter_id zero index entities = ok entities
read_all bytes packets counter_id (suc n) index entities = do
  entry ←
      counter_read_one bytes packets (pos index)
        (record { counter_id = counter_id; index = some (pos index); counter_data = none })
  read_all bytes packets counter_id n (suc index) (entities ++ counter_entry entry ∷ [])

abbrev pub counter_not_found : Bytes → Status
counter_not_found name = record {
  code = StatusCode.invalid_argument;
  message = "Counter cannot be found %s";
  details = name;
}

-- The status, and the response.
unfoldable pub counter_read : Device → CounterEntry → ReadResponse → Run (Status × ReadResponse)
counter_read dm entry response =
    if not (check_p4_id entry.counter_id P4Ids.counter) && not (entry.counter_id == 0)
    then ok (status_of StatusCode.unknown "P4ID is not unknown", response)
    else do
      elem ← deref (get_element dm.id_map entry.counter_id)
      get ← deref dm.get_counter_by_name
      let bytes = get elem.value true
      let packets = get elem.value false
      if is_missing bytes && is_missing packets
          then ok (counter_not_found elem.value, response)
          else elim (entry.index) [
            | some index ↦
                if is_negative index
                then ok (status_of StatusCode.unknown "counter index negative", response)
                else do
                  e ← counter_read_one bytes packets (to_int32 (pos_part index)) entry
                  ok (status_ok, record { entities = response.entities ++ counter_entry e ∷ [] })
            | none ↦ do
              entities ←
                  read_all bytes packets entry.counter_id
                    (max (pos_part packets.size) (pos_part bytes.size)) 0 response.entities
              ok (status_ok, record { entities = entities })
          ]
