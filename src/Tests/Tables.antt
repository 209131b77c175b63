-- ===== src/Tests/Tables.antt =====
-- Table entries and counters of server/device_mgr.c at concrete values.
use p4runtime_grpcpp.Base.{
  null_pointer, none, ◌≡◌, ◌<◌, ◌⊎◌, inl, refl, true, false, List, [], ◌∷◌, some, codes, length,
  All, ok, fault, arith,
}
use p4runtime_grpcpp.Base.Int.{pos}
use p4runtime_grpcpp.Counter.Values.{Answers}
use p4runtime_grpcpp.Device.{Device}
use p4runtime_grpcpp.IdMap.{Element, get_element, get_from, get_argument, home, init_map}
use p4runtime_grpcpp.Messages.{Call}
use p4runtime_grpcpp.Proto.{
  TableAction, Status, status_ok, is_ok, exact, MatchKind, FieldMatch, TableEntry, CounterEntry,
}
use p4runtime_grpcpp.Table.{add_action, send, table_insert, invalid_action}
use p4runtime_grpcpp.Table.Insert.{
  IsReadyEntry, message_for, table_insert_ready, table_insert-calls, table_insert_supported,
  table_insert_drops,
}
use p4runtime_grpcpp.Table.Matches.{IsReady, add_matches_ready}
use p4runtime_grpcpp.Table.Null.{table_insert_null, MissesField}
use p4runtime_grpcpp.Table.Refuses.{RefusedWith, table_insert-refuses}
use p4runtime_grpcpp.Tests.{
  small_platform, fwd, set_port, cnt, small_device, uneven_values, small_action, ip_match,
  entry_with,
}

abbrev exact_match : FieldMatch
exact_match = ip_match (exact (10 ∷ 0 ∷ 0 ∷ 1 ∷ []))

abbrev range_match : FieldMatch
range_match = ip_match MatchKind.other

abbrev IsKnown : Element → Type 0
IsKnown e = get_element small_device.id_map e.key ≡ some e

fwd-IsKnown : IsKnown fwd
unfolding get_element get_from home init_map
fwd-IsKnown = refl

set_port-IsKnown : IsKnown set_port
unfolding get_element get_from home init_map
set_port-IsKnown = refl

cnt-IsKnown : IsKnown cnt
unfolding get_element get_from home init_map
cnt-IsKnown = refl

ready_with :
    (ms : List FieldMatch)
    → All (IsReady small_platform fwd) ms
    → length ms < 5
    → IsReadyEntry small_platform small_device (entry_with ms)
unfolding get_argument
ready_with ms ready few = record {
  table = fwd;
  table_known = fwd-IsKnown;
  matches = ready;
  matches_fit = omega arith;
  act = small_action;
  has_action = refl;
  action_elem = set_port;
  action_known = set_port-IsKnown;
  params =
      ((record { id = 1; name = codes "port"; bitwidth = 16 }, refl, omega arith, omega arith), tt);
  params_fit = omega arith;
  callback = 77;
  callback_set = refl;
}

exact_match-IsReady : IsReady small_platform fwd exact_match
unfolding get_argument
exact_match-IsReady =
    (record { id = 1; name = codes "ip"; bitwidth = 32 }, refl, omega arith, omega arith)

range_match-IsReady : IsReady small_platform fwd range_match
unfolding get_argument
range_match-IsReady = (record { id = 1; name = codes "ip"; bitwidth = 32 }, refl, omega arith, tt)

abbrev exact_entry : TableEntry
exact_entry = entry_with (exact_match ∷ [])

abbrev mixed_entry : TableEntry
mixed_entry = entry_with (range_match ∷ exact_match ∷ [])

abbrev range_entry : TableEntry
range_entry = entry_with (exact_match ∷ range_match ∷ [])

exact_entry-IsReadyEntry : IsReadyEntry small_platform small_device exact_entry
exact_entry-IsReadyEntry = ready_with (exact_match ∷ []) (exact_match-IsReady, tt) (omega arith)

mixed_entry-IsReadyEntry : IsReadyEntry small_platform small_device mixed_entry
mixed_entry-IsReadyEntry =
    ready_with (range_match ∷ exact_match ∷ []) (range_match-IsReady, (exact_match-IsReady, tt))
      (omega arith)

range_entry-IsReadyEntry : IsReadyEntry small_platform small_device range_entry
range_entry-IsReadyEntry =
    ready_with (exact_match ∷ range_match ∷ []) (exact_match-IsReady, (range_match-IsReady, tt))
      (omega arith)

-- The message of the entry, and the call that carries it.
abbrev installed : (entry : TableEntry) → IsReadyEntry small_platform small_device entry → List Call
installed entry r =
    record { callee = r.callback; message = message_for small_platform small_device entry r } ∷ []

table_insert_supported_example :
    (table_insert small_platform small_device exact_entry
      ≡ ok (status_ok, installed exact_entry exact_entry-IsReadyEntry))
    × (length
          (message_for small_platform small_device exact_entry
            exact_entry-IsReadyEntry).field_matches
        ≡ 1)
    × (length
          (message_for small_platform small_device exact_entry
            exact_entry-IsReadyEntry).action_params
        ≡ length exact_entry-IsReadyEntry.act.params)
table_insert_supported_example =
    table_insert_supported small_platform small_device exact_entry exact_entry-IsReadyEntry
      (λ h. cc, tt)

exact_installed :
    table_insert small_platform small_device exact_entry
    ≡ ok (status_ok, installed exact_entry exact_entry-IsReadyEntry)
exact_installed =
    table_insert_ready small_platform small_device exact_entry exact_entry-IsReadyEntry

table_insert-calls_example :
    ((is_ok status_ok ≡ true)
      × ((c : Call) × (installed exact_entry exact_entry-IsReadyEntry ≡ c ∷ [])
          × (small_device.cb ≡ some c.callee)))
    ⊎ ((is_ok status_ok ≡ false) × (installed exact_entry exact_entry-IsReadyEntry ≡ []))
table_insert-calls_example =
    table_insert-calls small_platform small_device exact_entry status_ok
      (installed exact_entry exact_entry-IsReadyEntry) exact_installed

table_insert_drops_example :
    (table_insert small_platform small_device mixed_entry
      ≡ ok (status_ok, installed mixed_entry mixed_entry-IsReadyEntry))
    × (length
          (message_for small_platform small_device mixed_entry
            mixed_entry-IsReadyEntry).field_matches
        < 2)
table_insert_drops_example =
    table_insert_drops small_platform small_device mixed_entry mixed_entry-IsReadyEntry [] []
      range_match exact_match refl refl refl

abbrev second_value : CounterEntry
second_value = record { counter_id = 3; index = some (pos 1); counter_data = none }

abbrev every_value : CounterEntry
every_value = record { counter_id = 3; index = none; counter_data = none }

abbrev seventh_value : CounterEntry
seventh_value = record { counter_id = 3; index = some (pos 7); counter_data = none }

abbrev uneven_device : Device
uneven_device = record small_device { get_counter_by_name = some uneven_values }

uneven-Answers : Answers uneven_device 3 (10 ∷ 20 ∷ []) (1 ∷ [])
uneven-Answers = record {
  elem = cnt;
  known = cnt-IsKnown;
  get = uneven_values;
  getter = refl;
  bytes = refl;
  packets = refl;
  some_bytes = omega arith;
  some_packets = omega arith;
  few_bytes = omega arith;
  few_packets = omega arith;
}

abbrev unknown_table : TableEntry
unknown_table = record exact_entry { table_id = 6 }

-- The second match names a field that the table does not have.
abbrev unknown_field : TableEntry
unknown_field = entry_with (exact_match ∷ record { field_id = 2; kind = exact (1 ∷ []) } ∷ [])

abbrev unknown_action : TableEntry
unknown_action = record exact_entry {
  table_action = TableAction.action (record { action_id = 6; params = [] });
}

nothing_known : get_element small_device.id_map 6 ≡ none
unfolding get_element get_from home init_map
nothing_known = refl

unknown_field-MissesField : MissesField small_platform fwd unknown_field.matches
unfolding get_argument
unknown_field-MissesField = record {
  before = exact_match ∷ [];
  missing = record { field_id = 2; kind = exact (1 ∷ []) };
  after = [];
  split = refl;
  ready = (exact_match-IsReady, tt);
  fit = omega arith;
  supported = λ h. cc;
  no_field = refl;
}

unknown_table_faults : table_insert small_platform small_device unknown_table ≡ fault null_pointer
unknown_table_faults =
    table_insert_null small_platform small_device unknown_table (inl nothing_known)

unknown_action_runs :
    table_insert small_platform small_device unknown_action ≡ ok (invalid_action, [])
unfolding table_insert add_action send
unknown_action_runs =
    let matches =
      add_matches_ready small_platform fwd unknown_action.matches status_ok []
        (exact_match-IsReady, tt) (omega arith) in
    ground (arith, fwd-IsKnown, matches, nothing_known)

abbrev nobody : List Call
nobody = []

table_insert-refuses_example :
    (RefusedWith small_device unknown_action invalid_action × (nobody ≡ []))
    ⊎ ((¬ ((reason : Status) × RefusedWith small_device unknown_action reason))
        × (invalid_action ≡ status_ok)
        × ((c : Call) × (nobody ≡ c ∷ []) × (small_device.cb ≡ some c.callee)))
table_insert-refuses_example =
    table_insert-refuses small_platform small_device unknown_action invalid_action []
      unknown_action_runs
