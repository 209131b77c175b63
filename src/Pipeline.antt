-- ===== src/Pipeline.antt =====
-- The forwarding pipeline configuration of server/device_mgr.c: `dev_mgr_set_pipeline_config` and
-- `dev_mgr_get_pipeline_config`.
pub mod Fill
pub mod Load
pub mod Grow
pub mod AddDigests
pub mod Set
pub mod Keeps
pub mod Fresh
pub mod Order
pub mod Replay
pub mod Overrun
use p4runtime_grpcpp.Base.{
  ℕ, Bool, true, false, List, [], ◌∷◌, none, some, c_str, Run, ok, fault, null_pointer, deref,
  ◌>>=◌, if◌then◌else◌,
}
use p4runtime_grpcpp.ConfigFile.{Disk, change_config, read_config}
use p4runtime_grpcpp.Device.{Device, Saved}
use p4runtime_grpcpp.DigestMap.{DigestMap, assign}
use p4runtime_grpcpp.IdMap.{Argument, IdMap, add_element, store, push_argument}
use p4runtime_grpcpp.Proto.{
  StatusCode, Status, status_of, MatchField, Preamble, P4Table, P4Action, P4Info, PipelineConfig,
  p4info_of, cookie_of, SetAction, ResponseType,
}

abbrev pub argument_of : MatchField → Argument
argument_of f = record { id = f.id; name = c_str f.name; bitwidth = f.bitwidth }

-- The loop over match fields or parameters, which fills the element at the pointer.
unfoldable pub fill : IdMap → ℕ → List MatchField → Run IdMap
fill m i [] = ok m
fill m i (f ∷ fs) = do
  elem ← deref (m.slot i)
  elem' ← push_argument elem (argument_of f)
  fill (store m i elem') i fs

-- The loop over the tables stops at the first that finds no room.
unfoldable pub add_tables : IdMap → List P4Table → Run IdMap
add_tables m [] = ok m
add_tables m (t ∷ ts) =
    let r = add_element m t.preamble.id (c_str t.preamble.name) in
    elim (r.0) [ none ↦ ok r.1 | some i ↦ do m' ← fill r.1 i t.match_fields; add_tables m' ts ]

-- The loop over the actions uses the pointer unchecked as soon as there is a parameter.
unfoldable pub add_actions : IdMap → List P4Action → Run IdMap
add_actions m [] = ok m
add_actions m (a ∷ rest) =
    let r = add_element m a.preamble.id (c_str a.preamble.name) in
    elim (r.0) [
      | none ↦ elim (a.params) [ [] ↦ add_actions r.1 rest | q ∷ qs ↦ fault null_pointer ]
      | some i ↦ do m' ← fill r.1 i a.params; add_actions m' rest
    ]

unfoldable pub add_counters : IdMap → List Preamble → IdMap
add_counters m [] = m
add_counters m (c ∷ cs) = add_counters (add_element m c.id (c_str c.name)).1 cs

unfoldable pub add_digests : DigestMap → List Preamble → DigestMap
add_digests ds [] = ds
add_digests ds (d ∷ rest) =
    add_digests (assign ds (record { name = d.name; id = d.id; active = false })) rest

unfoldable pub add_info : IdMap → P4Info → Run IdMap
add_info m info = do
  m₁ ← add_tables m info.tables
  m₂ ← add_actions m₁ info.actions
  ok (add_counters m₂ info.counters)

abbrev pub takes_config : SetAction → Bool
takes_config SetAction.verify = true
takes_config SetAction.verify_and_save = true
takes_config SetAction.verify_and_commit = true
takes_config SetAction.reconcile_and_commit = true
takes_config _ = false

-- `status(grpc::StatusCode::OK, "ok")`.
abbrev pub initial_status : Status
initial_status = status_of StatusCode.ok "ok"

unfoldable pub dev_mgr_set_pipeline_config :
    Disk → Device → Saved → SetAction → PipelineConfig → Run (Status × Device × Saved)
dev_mgr_set_pipeline_config disk dm saved action config =
    if takes_config action
    then (do
      let info = p4info_of config
      m ← add_info dm.id_map info
      ok (
        initial_status,
        record dm {
          p4info = info;
          has_p4info = 1;
          id_map = m;
          digest_map = add_digests [] info.digests;
        },
        record {
          config_cookie = cookie_of config;
          device_config = change_config disk config.p4_device_config saved.device_config;
          has_config_cookie = true;
        },
      ))
    else ok (initial_status, dm, saved)

abbrev pub with_config : Disk → Saved → PipelineConfig → PipelineConfig × Saved
with_config disk saved config =
    let (bytes, file) = read_config disk saved.device_config config.p4_device_config in
    (record config { p4_device_config = bytes }, record saved { device_config = file })

abbrev pub with_cookie : PipelineConfig × Saved → PipelineConfig × Saved
with_cookie (config, saved) = (
  if saved.has_config_cookie then record config { cookie = some saved.config_cookie } else config,
  saved,
)

-- The response's configuration, and the file, whose position moves. The status is always `OK`.
unfoldable pub dev_mgr_get_pipeline_config :
    Disk → Device → Saved → ResponseType → PipelineConfig → PipelineConfig × Saved
dev_mgr_get_pipeline_config disk dm saved type config = elim type [
  | ResponseType.all ↦
      with_cookie (with_config disk saved (record config { p4info = some dm.p4info }))
  | ResponseType.cookie_only ↦ with_cookie (config, saved)
  | ResponseType.p4info_and_cookie ↦ with_cookie (record config { p4info = some dm.p4info }, saved)
  | ResponseType.device_config_and_cookie ↦ with_cookie (with_config disk saved config)
  | ResponseType.unrecognized ↦ (config, saved)
]
