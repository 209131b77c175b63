-- ===== src/Server/Reported.antt =====
-- server/pi_server.cc: counters on their way to a controller, whatever came before.
use mathlib.Core.List.{append_assoc, append-nil, map-append}
use p4runtime_grpcpp.Base.{
  ℕ, ◌%◌, ◌^◌, ◌≡◌, subst, ◌⊎◌, refl, ◌∙◌, inl, inr, List, [], ◌∷◌, ◌++◌, map, none, some, All,
  length, get_elem?, true, false, ok, arith,
}
use p4runtime_grpcpp.Base.Int.{pos}
use p4runtime_grpcpp.Counter.Values.{
  Answers, IsArray, array_of, with_values, entries_from, counter_read-index, counter_read-wildcard,
}
use p4runtime_grpcpp.Device.{Device, CounterRead, dev_mgr_init_with_t4p4s}
use p4runtime_grpcpp.IdMap.{Element, get_element}
use p4runtime_grpcpp.Manager.{dev_mgr_read_one}
use p4runtime_grpcpp.Manager.Read.{Reads, done, more, dev_mgr_read-Reads}
use p4runtime_grpcpp.Messages.{Platform}
use p4runtime_grpcpp.Pipeline.Load.{first_with}
use p4runtime_grpcpp.Proto.{CounterEntry, counter_entry, status_ok, ReadRequest, ReadResponse}
use p4runtime_grpcpp.Server.{Server, read, empty_response}
use p4runtime_grpcpp.Server.History.{history, all_brought, DigestsDiffer}
use p4runtime_grpcpp.Server.Reach.{Reach}
use p4runtime_grpcpp.Server.Refines.{IsUnused, FitsMap, started-replay}
use p4runtime_grpcpp.Server.Spec.Brought.{brought-known}

-- A request without an index for two arrays of one length, or for an index that both have.
abbrev pub IsAsked : CounterEntry → List ℕ → List ℕ → Type 0
IsAsked entry bs ps =
    ((entry.index ≡ none) × (length ps ≡ length bs))
    ⊎ ((i : ℕ) × (b : ℕ) × (n : ℕ) × (entry.index ≡ some (pos i))
        × (get_elem? bs (i % 2 ^ 32) ≡ some b)
        × (get_elem? ps (i % 2 ^ 32) ≡ some n))

-- The counter is the first element of its id, and the data plane has arrays of its bytes and its
-- packets, in which the request stays.
pub record IsReported (es : List Element) (counters : CounterRead) (entry : CounterEntry)
    : Type 0 where
  pub elem : Element
  pub known : first_with es entry.counter_id ≡ some elem
  pub byte_counts : List ℕ
  pub packet_counts : List ℕ
  pub bytes : counters elem.value true ≡ array_of byte_counts
  pub packets : counters elem.value false ≡ array_of packet_counts
  pub fits_bytes : IsArray byte_counts
  pub fits_packets : IsArray packet_counts
  pub asks : IsAsked entry byte_counts packet_counts

-- The entries that answer one request: that of its index, or one for each index.
abbrev rows : (entry : CounterEntry) (bs ps : List ℕ) → IsAsked entry bs ps → List CounterEntry
rows entry bs ps (inl all) = entries_from entry.counter_id 0 bs ps
rows entry bs ps (inr (i, b, n, at, at_b, at_n)) = with_values entry b n ∷ []

abbrev pub reported :
    (es : List Element) (counters : CounterRead) (entry : CounterEntry)
    → IsReported es counters entry
    → List CounterEntry
reported es counters entry d = rows entry d.byte_counts d.packet_counts d.asks

abbrev pub all_reported :
    (es : List Element) (counters : CounterRead) (entries : List CounterEntry)
    → All (IsReported es counters) entries
    → List CounterEntry
all_reported es counters [] all = []
all_reported es counters (entry ∷ entries) (d, all) =
    reported es counters entry d ++ all_reported es counters entries all

abbrev with_entries : ReadResponse → List CounterEntry → ReadResponse
with_entries r entries = record { entities = r.entities ++ map counter_entry entries }

with_entries_nil : (r : ReadResponse) → r ≡ with_entries r []
with_entries_nil r = ground (arith, append-nil r.entities)

with_entries-append :
    (r : ReadResponse) (es fs : List CounterEntry)
    → with_entries (with_entries r es) fs ≡ with_entries r (es ++ fs)
with_entries-append r es fs = ground (
  arith,
  append_assoc r.entities (map counter_entry es) (map counter_entry fs),
  map-append counter_entry es fs,
)

module _ (dm : Device) (es : List Element) (counters : CounterRead)
    (getter : dm.get_counter_by_name ≡ some counters)
    (finds : (q : ℕ) → get_element dm.id_map q ≡ first_with es q) where
  answers :
      (entry : CounterEntry) (d : IsReported es counters entry)
      → Answers dm entry.counter_id d.byte_counts d.packet_counts
  answers entry d = record {
    elem = d.elem;
    known = finds entry.counter_id ∙ d.known;
    get = counters;
    getter = getter;
    bytes = d.bytes;
    packets = d.packets;
    some_bytes = d.fits_bytes.0;
    some_packets = d.fits_packets.0;
    few_bytes = d.fits_bytes.1;
    few_packets = d.fits_packets.1;
  }

  read_one :
      (entry : CounterEntry) (r : ReadResponse) (d : IsReported es counters entry)
      → dev_mgr_read_one dm (counter_entry entry) r
        ≡ ok (status_ok, with_entries r (reported es counters entry d))
  unfolding dev_mgr_read_one
  read_one entry r d = by_index d.asks
    where
      by_index :
          (asks : IsAsked entry d.byte_counts d.packet_counts)
          → dev_mgr_read_one dm (counter_entry entry) r
            ≡ ok (status_ok, with_entries r (rows entry d.byte_counts d.packet_counts asks))
      by_index (inl (no_index, same)) =
          counter_read-wildcard dm entry r d.byte_counts d.packet_counts (answers entry d) no_index
            same
      by_index (inr (i, b, n, at, at_b, at_n)) =
          counter_read-index dm entry r d.byte_counts d.packet_counts (answers entry d) i b n at
            at_b at_n

  read_counter_entries :
      (entries : List CounterEntry) (r : ReadResponse) (d : All (IsReported es counters) entries)
      → Reads dm (map counter_entry entries) r (with_entries r (all_reported es counters entries d))
  read_counter_entries [] r d = subst (Reads dm [] r) (with_entries_nil r) (done r)
  read_counter_entries (entry ∷ entries) r (d, all) =
      let first : List CounterEntry = reported es counters entry d in
      let rest = read_counter_entries entries (with_entries r first) all in
      more status_ok (read_one entry r d) refl (
        subst (Reads dm (map counter_entry entries) (with_entries r first))
          (with_entries-append r first (all_reported es counters entries all)) rest)

-- A read that asks for counters.
abbrev pub counters_request : ℕ → List CounterEntry → ReadRequest
counters_request read_id entries = record {
  device_id = read_id;
  entities = map counter_entry entries;
}

read_counters :
    (s : Server) (es : List Element) (counters : CounterRead) (read_id : ℕ)
    (entries : List CounterEntry) (d : All (IsReported es counters) entries)
    → s.dm.has_p4info ≡ 1
    → s.dm.get_counter_by_name ≡ some counters
    → ((q : ℕ) → get_element s.dm.id_map q ≡ first_with es q)
    → read s (counters_request read_id entries)
      ≡ ok (
        status_ok,
        record { entities = map counter_entry (all_reported es counters entries d) } ∷ [],
      )
unfolding read
read_counters s es counters read_id entries d is_set getter finds =
    let reads = read_counter_entries s.dm es counters getter finds entries empty_response d in
    ground (
      arith,
      is_set,
      dev_mgr_read-Reads s.dm (counters_request read_id entries) empty_response _ reads,
    )

-- From the start of a server whose memory holds no digest and no stream on, whatever came before,
-- where its configurations bring at most four elements for each hash value in all, and none has two
-- digests with one id: a read that asks for one or more counters which the configurations brought
-- is answered `OK`, in one response. For each counter, in order, it holds an entry for each index,
-- where the request has no index and the two arrays have one length; or the entry at the index
-- modulo 2 ^ 32, where the request has one and both arrays reach that far; each with the values
-- that stand there. The arrays are those of the data plane under the name that came first under the
-- id, neither is empty, and both are shorter than 2 ^ 31.
pub history-reports :
    (p : Platform) (s s' : Server) (cb : ℕ) (counters : CounterRead) (device_id read_id : ℕ)
    (reach : Reach p (record s { dm = dev_mgr_init_with_t4p4s s.dm cb counters device_id }) s')
    (entry : CounterEntry) (entries : List CounterEntry)
    → IsUnused s
    → FitsMap (history reach)
    → All DigestsDiffer (history reach)
    → let es = all_brought (history reach) in
      (d : All (IsReported es counters) (entry ∷ entries))
      → read s' (counters_request read_id (entry ∷ entries))
        ≡ ok (
          status_ok,
          record { entities = map counter_entry (all_reported es counters (entry ∷ entries) d) }
              ∷ [],
        )
history-reports p s s' cb counters device_id read_id reach entry entries unused few differ d =
    let r = started-replay p s s' cb counters device_id reach unused few differ in
    let (is_set, _, getter, finds) =
      brought-known s' cb counters device_id entry.counter_id (history reach) d.0.elem r
        d.0.known in
    read_counters s' (all_brought (history reach)) counters read_id (entry ∷ entries) d is_set
      getter finds
