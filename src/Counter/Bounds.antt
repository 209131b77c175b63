-- ===== src/Counter/Bounds.antt =====
-- What `counter_read` of server/device_mgr.c reads where an index or an array is out of bounds.
use native.Mathlib.Decide.{dec_lt}
use p4runtime_grpcpp.Base.Int.{pos, negsuc}
use p4runtime_grpcpp.Base.{
  ℕ, zero, suc, ◌+◌, ◌%◌, ◌^◌, ◌≤◌, ◌<◌, ◌≡◌, ◌≢◌, ◌⊎◌, inl, inr, List, none, some, length, drop-lt,
  fault, out_of_bounds, arith, max, ◌-◌,
}
use p4runtime_grpcpp.Counter.Values.{
  array_of, Answers, IsArray, read_one_lt, read_one_ge, is_missing_array, to_int32_small,
}
use p4runtime_grpcpp.Counter.{load, read_value, counter_read_one, read_all, counter_read}
use p4runtime_grpcpp.Device.{Device}
use p4runtime_grpcpp.Proto.{CounterEntry, Entity, ReadResponse}

read_all_beyond :
    (id : ℕ) (bs ps : List ℕ) (n i : ℕ) (done : List Entity)
    → IsArray bs
    → IsArray ps
    → i ≤ length bs
    → i ≤ length ps
    → (length bs < i + n) ⊎ (length ps < i + n)
    → read_all (array_of bs) (array_of ps) id n i done ≡ fault out_of_bounds
unfolding read_all
read_all_beyond id bs ps zero i done hb hp le_b le_p out = absurd (omega arith)
read_all_beyond id bs ps (suc n) i done hb hp le_b le_p out = elim (dec_lt i (length bs)) [
  | no beyond ↦ rw (read_one_ge bs ps i _ hb hp (inl (omega arith)))
  | yes in_b ↦ elim (dec_lt i (length ps)) [
    | no beyond ↦ rw (read_one_ge bs ps i _ hb hp (inr (omega arith)))
    | yes in_p ↦
        let (b, _, at_b) = drop-lt i bs in_b in
        let (p, _, at_p) = drop-lt i ps in_p in
        rw (read_one_lt bs ps i b p _ hb hp at_b at_p)
          (read_all_beyond id bs ps n (suc i) _ hb hp (omega arith) (omega arith) (omega arith))
  ]
]

module _ (dm : Device) (entry : CounterEntry) (response : ReadResponse) (bs ps : List ℕ)
    (answers : Answers dm entry.counter_id bs ps) where
  open answers use {known, getter, bytes, packets, some_bytes, some_packets, few_bytes, few_packets}

  hb : IsArray bs
  hb = (some_bytes, few_bytes)

  hp : IsArray ps
  hp = (some_packets, few_packets)

  -- A request without an index reads past the end of the shorter of two arrays that are not empty
  -- and differ in length.
  counter_read_overrun :
      entry.index ≡ none
      → length bs ≢ length ps
      → counter_read dm entry response ≡ fault out_of_bounds
  unfolding counter_read
  counter_read_overrun at differ =
      let beyond =
        read_all_beyond entry.counter_id bs ps (max (length ps) (length bs)) 0 response.entities hb
          hp (omega arith) (omega arith) (omega arith) in
      ground (arith, known, getter, bytes, packets, is_missing_array bs, beyond)

  one_negative :
      (n : ℕ) → counter_read_one (array_of bs) (array_of ps) (negsuc n) entry ≡ fault out_of_bounds
  unfolding counter_read_one read_value load
  one_negative n = ground arith

  -- With arrays that are not empty, an index that one of them does not have, taken modulo 2 ^ 32,
  -- is read out of bounds.
  counter_read_beyond :
      (i : ℕ)
      → entry.index ≡ some (pos i)
      → (length bs ≤ i % 2 ^ 32) ⊎ (length ps ≤ i % 2 ^ 32)
      → counter_read dm entry response ≡ fault out_of_bounds
  unfolding counter_read
  counter_read_beyond i at out = elim (dec_lt (i % 2 ^ 32) (2 ^ 31)) [
    | yes small ↦
        let is = to_int32_small i small in
        ground (
          arith,
          known,
          getter,
          bytes,
          packets,
          is,
          is_missing_array bs,
          read_one_ge bs ps (i % 2 ^ 32) entry hb hp out,
        )
    | no large ↦ ground (
      arith,
      known,
      getter,
      bytes,
      packets,
      is_missing_array bs,
      one_negative (2 ^ 32 - suc (i % 2 ^ 32)),
    )
  ]
