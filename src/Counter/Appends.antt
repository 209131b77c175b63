-- ===== src/Counter/Appends.antt =====
-- The entries that the loops of `counter_read` in server/device_mgr.c put behind those of the response.
use mathlib.Core.List.{append-nil, append_assoc}
use p4runtime_grpcpp.Base.{
  ℕ, zero, suc, ◌≡◌, refl, sym, ap, ap₂, ◌∙◌, max, List, [], ◌∷◌, ◌++◌, map, Option, none, some, ok,
  >>=-eq-ok, arith,
}
use p4runtime_grpcpp.Base.Int.{ℤ, pos, pos_part}
use p4runtime_grpcpp.Counter.{
  read_value, counter_read_one, read_all, set_byte_count, set_packet_count,
}
use p4runtime_grpcpp.Device.{CounterArray}
use p4runtime_grpcpp.Proto.{CounterEntry, Entity, counter_entry}

-- The counter and the index that an entry says.
abbrev pub Label : Type 0
Label = ℕ × Option ℤ

abbrev pub label : CounterEntry → Label
label e = (e.counter_id, e.index)

abbrev pub labels_from : ℕ → ℕ → ℕ → List Label
labels_from id zero i = []
labels_from id (suc n) i = (id, some (pos i)) ∷ labels_from id n (suc i)

-- What is asked for: the index, or each below the larger of the two sizes.
abbrev pub labels_for : CounterEntry → CounterArray → CounterArray → List Label
labels_for entry bytes packets = elim (entry.index) [
  | some index ↦ (entry.counter_id, some index) ∷ []
  | none ↦ labels_from entry.counter_id (max (pos_part packets.size) (pos_part bytes.size)) 0
]

label-set :
    (b n : Option ℕ) (e : CounterEntry) → label (set_packet_count n (set_byte_count b e)) ≡ label e
label-set none none e = refl
label-set none (some n) e = refl
label-set (some b) none e = refl
label-set (some b) (some n) e = refl

pub label-read_one :
    (bytes packets : CounterArray) (index : ℤ) (entry e : CounterEntry)
    → counter_read_one bytes packets index entry ≡ ok e
    → label e ≡ label entry
unfolding counter_read_one
label-read_one bytes packets index entry e run =
    let (b, _, rest) = >>=-eq-ok (read_value bytes index) _ run in
    let (n, _, is) = >>=-eq-ok (read_value packets index) _ rest in
    let same : set_packet_count n (set_byte_count b entry) ≡ e = ground arith in
    ap label (sym same) ∙ label-set b n entry

-- The response `after` is the response `before` with entries of the labels behind.
abbrev pub Appends : List Entity → List Label → List Entity → Type 0
Appends before labels after =
    (rows : List CounterEntry) × (after ≡ before ++ map counter_entry rows)
    × (map label rows ≡ labels)

pub read_all-Appends :
    (bytes packets : CounterArray) (id n i : ℕ) (entities r : List Entity)
    → read_all bytes packets id n i entities ≡ ok r
    → Appends entities (labels_from id n i) r
unfolding read_all
read_all-Appends bytes packets id zero i entities r run =
    ([], ground (arith, append-nil entities), refl)
read_all-Appends bytes packets id (suc n) i entities r run =
    let entry : CounterEntry = record {
      counter_id = id;
      index = some (pos i);
      counter_data = none;
    } in
    let (e, one, rest) = >>=-eq-ok (counter_read_one bytes packets (pos i) entry) _ run in
    let (rows, is, labelled) =
      read_all-Appends bytes packets id n (suc i) (entities ++ counter_entry e ∷ []) r rest in
    (
      e ∷ rows,
      is ∙ append_assoc entities (counter_entry e ∷ []) (map counter_entry rows),
      ap₂ (◌∷◌) (label-read_one bytes packets (pos i) entry e one) labelled,
    )
