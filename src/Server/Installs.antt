-- ===== src/Server/Installs.antt =====
-- server/pi_server.cc from the start over a configuration to an entry in the data plane.
use mathlib.Core.List.{append-nil}
use p4runtime_grpcpp.Base.{
  ℕ, ◌≤◌, ◌≡◌, refl, ◌∙◌, true, List, [], ◌∷◌, some, length, All, ok, Returns, if◌then◌else◌, arith,
}
use p4runtime_grpcpp.ConfigFile.{Disk}
use p4runtime_grpcpp.Device.{Device, CounterRead, dev_mgr_init, dev_mgr_init_with_t4p4s}
use p4runtime_grpcpp.IdMap.Bucket.{by_bucket, init_map-FitsBuckets}
use p4runtime_grpcpp.IdMap.Lookup.{init_map-IsProbed, get_element-init_map}
use p4runtime_grpcpp.IdMap.{Element, get_element, init_map}
use p4runtime_grpcpp.Messages.{Platform, CtrlMsg, add_table_entry, set_default_action}
use p4runtime_grpcpp.Pipeline.Fresh.{IsSpread}
use p4runtime_grpcpp.Pipeline.Load.{FitsInfo, first_with, elements_of}
use p4runtime_grpcpp.Pipeline.Set.{set_config-Loaded}
use p4runtime_grpcpp.Pipeline.{takes_config}
use p4runtime_grpcpp.Proto.{
  status_ok, Entity, UpdateType, WriteRequest, continue_on_error, Action, TableAction, TableEntry,
  P4Info, PipelineConfig, p4info_of, SetAction,
}
use p4runtime_grpcpp.Server.Configured.{configured-Serves}
use p4runtime_grpcpp.Server.{Server, set_config, write}
use p4runtime_grpcpp.Table.Insert.{IsReadyEntry, table_insert_supported}
use p4runtime_grpcpp.Table.Matches.{IsReady, IsSupported, IsReadyParam, rules_for, parameters_for}

-- The entry's table and action are among the elements, the first of their ids, and its matches and parameters are theirs, of
-- kinds that the server knows, and fit the arrays.
pub record IsDescribed (p : Platform) (es : List Element) (entry : TableEntry) : Type 0 where
  pub table : Element
  pub has_table : first_with es entry.table_id ≡ some table
  pub matches : All (IsReady p table) entry.matches
  pub supported : All IsSupported entry.matches
  pub matches_fit : length entry.matches ≤ p.max_field_matches
  pub act : Action
  pub is_action : entry.table_action ≡ TableAction.action act
  pub action_elem : Element
  pub has_action : first_with es act.action_id ≡ some action_elem
  pub params : All (IsReadyParam p action_elem) act.params
  pub params_fit : length act.params ≤ p.max_action_params

-- The message with the names of the elements.
abbrev pub described_message :
    (p : Platform) (es : List Element) (entry : TableEntry) → IsDescribed p es entry → CtrlMsg
described_message p es entry d = record {
  type = if entry.is_default_action then set_default_action else add_table_entry;
  table_name = d.table.value;
  field_matches = rules_for d.table entry.matches;
  action_name = d.action_elem.value;
  action_params = parameters_for p d.action_elem d.act.params;
}

-- The server as it is started for a data plane.
abbrev pub started : Server → ℕ → CounterRead → ℕ → Server
started s cb counters device_id = record s {
  dm = dev_mgr_init_with_t4p4s s.dm cb counters device_id;
}

abbrev pub insertion : ℕ → TableEntry → WriteRequest
insertion device_id entry = record {
  device_id = device_id;
  atomicity = continue_on_error;
  updates = record { type = UpdateType.insert; entity = Entity.table_entry entry } ∷ [];
}

-- What is left of the start by a configuration.
started-Configured :
    (disk : Disk) (s : Server) (cb : ℕ) (counters : CounterRead) (device_id config_id : ℕ)
    (action : SetAction) (config : PipelineConfig)
    → takes_config action ≡ true
    → IsSpread (p4info_of config)
    → Returns (set_config disk (started s cb counters device_id) config_id action config) λ r.
      (r.1.dm.has_p4info ≡ 1)
      × (r.1.dm.cb ≡ some cb)
      × ((q : ℕ) → get_element r.1.dm.id_map q ≡ first_with (elements_of (p4info_of config)) q)
unfolding set_config dev_mgr_init_with_t4p4s dev_mgr_init
started-Configured disk s cb counters device_id config_id action config takes spread =
    let info : P4Info = p4info_of config in
    let dm : Device = record (started s cb counters device_id).dm { device_id = config_id } in
    let fits : FitsInfo by_bucket init_map info [] = record {
      tables = spread.tables;
      actions = spread.actions;
      room =
          rw (append-nil (elements_of info))
            (init_map-FitsBuckets (elements_of info) spread.buckets);
    } in
    let (r, run, (_, loaded, made)) =
      set_config-Loaded disk dm s.saved action config takes by_bucket init_map-IsProbed fits in
    (
      (r.0, record s { dm = r.1; saved = r.2 }),
      rw run refl,
      (
        made.has_p4info,
        made.callbacks.0,
        λ q. loaded.loads q ∙ ground (arith, get_element-init_map q),
      ),
    )

-- A configured server that has the elements installs what it describes.
pub write_described :
    (p : Platform) (es : List Element) (s : Server) (entry : TableEntry) (cb write_id : ℕ)
    (d : IsDescribed p es entry)
    → s.dm.has_p4info ≡ 1
    → s.dm.cb ≡ some cb
    → ((q : ℕ) → get_element s.dm.id_map q ≡ first_with es q)
    → write p s (insertion write_id entry)
      ≡ ok (status_ok, s, record { callee = cb; message = described_message p es entry d } ∷ [])
write_described p es s entry cb write_id d set callback loads =
    let ready : IsReadyEntry p s.dm entry = record {
      table = d.table;
      table_known = loads entry.table_id ∙ d.has_table;
      matches = d.matches;
      matches_fit = d.matches_fit;
      act = d.act;
      has_action = d.is_action;
      action_elem = d.action_elem;
      action_known = loads d.act.action_id ∙ d.has_action;
      params = d.params;
      params_fit = d.params_fit;
      callback = cb;
      callback_set = callback;
    } in
    let (sends, _, _) = table_insert_supported p s.dm entry ready d.supported in
    let (_, written) = configured-Serves p s (insertion write_id entry) set refl in
    rw (written, sends) refl

-- A server that was started for a data plane, and then took a configuration whose argument lists
-- and names fit and which has at most four ids for each hash value, installs an entry that the
-- P4Info describes: the write is answered `OK`, the server stays as it is, and the data plane's
-- callback is called once, with the names of the P4Info and the rules and parameters that the entry
-- asks for.
pub configured-installs :
    (p : Platform) (disk : Disk) (s : Server) (cb : ℕ) (counters : CounterRead)
    (device_id config_id write_id : ℕ) (action : SetAction) (config : PipelineConfig)
    (entry : TableEntry)
    → takes_config action ≡ true
    → IsSpread (p4info_of config)
    → (d : IsDescribed p (elements_of (p4info_of config)) entry)
    → Returns (set_config disk (started s cb counters device_id) config_id action config) λ r.
      write p r.1 (insertion write_id entry)
      ≡ ok (
        status_ok,
        r.1,
        record {
          callee = cb;
          message = described_message p (elements_of (p4info_of config)) entry d;
        }
            ∷ [],
      )
configured-installs p disk s cb counters device_id config_id write_id action config entry takes
      spread d =
    let (r, run, (set, callback, loads)) =
      started-Configured disk s cb counters device_id config_id action config takes spread in
    (
      r,
      run,
      write_described p (elements_of (p4info_of config)) r.1 entry cb write_id d set callback loads,
    )
