-- ===== src/Tests.antt =====
-- A small platform, P4Info and device on which the statements about server/ and utils/ are run.
mod Maps
mod Tables
mod Pipelines
mod Requests
mod Streams
mod Outcomes
mod Configs
mod Lives
mod Installs
mod Histories
mod Reports
use p4runtime_grpcpp.Base.Int.{pos}
use p4runtime_grpcpp.Base.{
  ℕ, Bool, true, false, List, [], ◌∷◌, none, some, Bytes, codes, if◌then◌else◌,
}
use p4runtime_grpcpp.ConfigFile.{Disk, no_config}
use p4runtime_grpcpp.Counter.Values.{array_of}
use p4runtime_grpcpp.Device.{CounterArray, CounterRead, Device, Saved}
use p4runtime_grpcpp.IdMap.{Argument, Element, IdMap, init_map, store}
use p4runtime_grpcpp.Messages.{Platform}
use p4runtime_grpcpp.Proto.{
  exact, lpm, ternary, MatchKind, FieldMatch, Param, Action, TableAction, TableEntry, CounterEntry,
  Preamble, MatchField, P4Table, P4Action, P4Info, empty_p4info, PipelineConfig, ReadResponse,
}
use p4runtime_grpcpp.Server.{Server}

abbrev pub small_platform : Platform
small_platform = record {
  max_field_matches = 4;
  max_action_params = 4;
  match_name = 64;
  match_bitmap = 8;
  param_name = 64;
  param_bitmap = 8;
  big_endian = false;
}

abbrev pub ip_field : MatchField
ip_field = record { id = 1; name = codes "ip"; bitwidth = 32 }

abbrev pub port_param : MatchField
port_param = record { id = 1; name = codes "port"; bitwidth = 16 }

abbrev pub small_info : P4Info
small_info = record {
  tables =
      record { preamble = record { id = 1; name = codes "fwd" }; match_fields = ip_field ∷ [] }
      ∷ [];
  actions =
      record { preamble = record { id = 2; name = codes "set" }; params = port_param ∷ [] } ∷ [];
  counters = record { id = 3; name = codes "cnt" } ∷ [];
  digests = record { id = 9; name = codes "mac" } ∷ [];
}

abbrev pub small_config : PipelineConfig
small_config = record {
  p4info = some small_info;
  p4_device_config = 7 ∷ 8 ∷ 9 ∷ [];
  cookie = some 5;
}

abbrev pub good_disk : Disk
good_disk = record { tmpfile_ok = true; room = 1000; fseek_ok = true }

abbrev pub fwd : Element
fwd = record {
  value = codes "fwd";
  key = 1;
  args = record { id = 1; name = codes "ip"; bitwidth = 32 } ∷ [];
}

abbrev pub set_port : Element
set_port = record {
  value = codes "set";
  key = 2;
  args = record { id = 1; name = codes "port"; bitwidth = 16 } ∷ [];
}

abbrev pub cnt : Element
cnt = record { value = codes "cnt"; key = 3; args = [] }

abbrev pub small_map : IdMap
small_map = store (store (store init_map 4 fwd) 8 set_port) 12 cnt

abbrev pub two_values : CounterRead
two_values name bytes = if bytes then array_of (10 ∷ 20 ∷ []) else array_of (1 ∷ 2 ∷ [])

abbrev pub uneven_values : CounterRead
uneven_values name bytes = if bytes then array_of (10 ∷ 20 ∷ []) else array_of (1 ∷ [])

abbrev pub empty_device : Device
empty_device = record {
  device_id = 1;
  digest_map = [];
  id_map = init_map;
  cb = some 77;
  get_counter_by_name = some two_values;
  has_p4info = 0;
  p4info = empty_p4info;
  stream = none;
}

abbrev pub small_device : Device
small_device = record empty_device {
  id_map = small_map;
  has_p4info = 1;
  p4info = small_info;
  digest_map = record { name = codes "mac"; id = 9; active = false } ∷ [];
}

abbrev pub nothing_saved : Saved
nothing_saved = record { device_config = no_config; has_config_cookie = false; config_cookie = 0 }

abbrev pub empty_server : Server
empty_server = record { dm = empty_device; saved = nothing_saved; live = [] }

abbrev pub small_server : Server
small_server = record empty_server { dm = small_device }

abbrev pub small_action : Action
small_action = record { action_id = 2; params = record { param_id = 1; value = 0 ∷ 3 ∷ [] } ∷ [] }

abbrev pub ip_match : MatchKind → FieldMatch
ip_match kind = record { field_id = 1; kind = kind }

abbrev pub entry_with : List FieldMatch → TableEntry
entry_with ms = record {
  table_id = 1;
  matches = ms;
  table_action = TableAction.action small_action;
  is_default_action = false;
}

abbrev pub no_response : ReadResponse
no_response = record { entities = [] }
