-- ===== src/Tests/Pipelines.antt =====
-- The pipeline configuration of server/device_mgr.c, and its temporary file, at concrete values.
use p4runtime_grpcpp.Base.{
  true, replicate, take, ◌*◌, ◌/◌, ℕ, ◌≡◌, refl, List, [], ◌∷◌, some, none, Returns, arith, c_str,
}
use p4runtime_grpcpp.ConfigFile.Short.{read_config-truncated}
use p4runtime_grpcpp.ConfigFile.RoundTrip.{Holds, read_config-Holds, change_config-Holds}
use p4runtime_grpcpp.ConfigFile.{Disk, ConfigFile, no_config, change_config, read_config}
use p4runtime_grpcpp.Device.{Device, Saved}
use p4runtime_grpcpp.IdMap.Add.{used-init_map}
use p4runtime_grpcpp.IdMap.Capacity.{by_count}
use p4runtime_grpcpp.IdMap.Lookup.{init_map-IsProbed}
use p4runtime_grpcpp.IdMap.{home, init_map}
use p4runtime_grpcpp.Pipeline.Load.{FitsInfo, Loaded, elements_of}
use p4runtime_grpcpp.Pipeline.Set.{Configured, set_config-Loaded, get_config-set_config}
use p4runtime_grpcpp.Pipeline.{
  initial_status, dev_mgr_set_pipeline_config, dev_mgr_get_pipeline_config,
}
use p4runtime_grpcpp.Proto.{PipelineConfig, Status, SetAction, ResponseType}
use p4runtime_grpcpp.Tests.{small_info, small_config, good_disk, empty_device, nothing_saved}

pub small_info-FitsInfo : FitsInfo by_count init_map small_info []
unfolding home c_str
small_info-FitsInfo = record {
  tables = (record { count = omega arith; names = (omega arith, tt) }, tt);
  actions = (record { count = omega arith; names = (omega arith, tt) }, tt);
  room = (3, omega (arith, used-init_map), (omega arith, (omega arith, (omega arith, tt))));
}

set_config-Loaded_example :
    Returns
      (dev_mgr_set_pipeline_config good_disk empty_device nothing_saved SetAction.verify
        small_config)
      λ r.
        (r.0 ≡ initial_status)
        × Loaded init_map (elements_of small_info) r.1.id_map
        × Configured empty_device small_config r.1 r.2
set_config-Loaded_example =
    set_config-Loaded good_disk empty_device nothing_saved SetAction.verify small_config refl
      by_count init_map-IsProbed small_info-FitsInfo

-- What the request leaves behind.
pub taken :
    Returns
      (dev_mgr_set_pipeline_config good_disk empty_device nothing_saved SetAction.verify
        small_config)
      λ r.
        (r.0 ≡ initial_status)
        × Loaded init_map (elements_of small_info) r.1.id_map
        × Configured empty_device small_config r.1 r.2
taken =
    set_config-Loaded good_disk empty_device nothing_saved SetAction.verify small_config refl
      by_count init_map-IsProbed small_info-FitsInfo

abbrev empty_config : PipelineConfig
empty_config = record { p4info = none; p4_device_config = []; cookie = none }

abbrev get : Status × Device × Saved → ResponseType → PipelineConfig
get r type = (dev_mgr_get_pipeline_config good_disk r.1 r.2 type empty_config).0

get_config-set_config_example :
    (get taken.0 ResponseType.all ≡ small_config)
    × (get taken.0 ResponseType.cookie_only ≡ record empty_config { cookie = some 5 })
    × (get taken.0 ResponseType.p4info_and_cookie
        ≡ record empty_config { p4info = some small_info; cookie = some 5 })
    × (get taken.0 ResponseType.device_config_and_cookie
        ≡ record empty_config { p4_device_config = 7 ∷ 8 ∷ 9 ∷ []; cookie = some 5 })
get_config-set_config_example =
    get_config-set_config good_disk empty_device nothing_saved SetAction.verify small_config refl
      good_disk taken.0.0 taken.0.1 taken.0.2 refl (omega arith) refl taken.1

abbrev config_bytes : List ℕ
config_bytes = 7 ∷ 8 ∷ 9 ∷ []

abbrev written_file : ConfigFile
written_file = change_config good_disk config_bytes no_config

read_config-Holds_example :
    ((read_config good_disk written_file (1 ∷ [])).0 ≡ 1 ∷ 7 ∷ 8 ∷ 9 ∷ [])
    × Holds config_bytes (read_config good_disk written_file (1 ∷ [])).1
read_config-Holds_example =
    read_config-Holds good_disk config_bytes (1 ∷ []) written_file refl
      (change_config-Holds good_disk config_bytes no_config refl (omega arith))

-- A disk with room for a buffer and a part of another.
abbrev full_disk : Disk
full_disk = record { tmpfile_ok = true; room = 600; fseek_ok = true }

abbrev long_config : List ℕ
long_config = replicate 700 7

read_config-truncated_example :
    (read_config good_disk (change_config full_disk long_config no_config) (1 ∷ [])).0
    ≡ 1 ∷ take (600 / 512 * 512) long_config
read_config-truncated_example =
    read_config-truncated full_disk good_disk long_config (1 ∷ []) no_config refl (omega arith) refl
