-- ===== src/Pipeline/Fresh.antt =====
-- The first configuration that `dev_mgr_set_pipeline_config` loads, on the map as it is initialised.
use mathlib.Core.List.{append-nil}
use p4runtime_grpcpp.Base.{[], ℕ, ◌<◌, ◌≤◌, ◌≡◌, ◌∙◌, true, All, arith, Returns}
use p4runtime_grpcpp.ConfigFile.{Disk}
use p4runtime_grpcpp.Device.{Device, Saved, dev_mgr_init}
use p4runtime_grpcpp.IdMap.Bucket.{by_bucket, hashed_to, init_map-FitsBuckets}
use p4runtime_grpcpp.IdMap.Lookup.{init_map-IsProbed, get_element-init_map}
use p4runtime_grpcpp.IdMap.{get_element, max_hash_size, redundancy_map}
use p4runtime_grpcpp.Pipeline.Load.{FitsFields, FitsInfo, first_with, elements_of}
use p4runtime_grpcpp.Pipeline.Set.{set_config-Loaded}
use p4runtime_grpcpp.Pipeline.{initial_status, takes_config, dev_mgr_set_pipeline_config}
use p4runtime_grpcpp.Proto.{P4Table, P4Action, P4Info, PipelineConfig, p4info_of, SetAction}

-- The argument lists and names fit their arrays, and no hash value is that of more than four ids.
pub record IsSpread (info : P4Info) : Type 0 where
  pub tables : All (λ (t : P4Table). FitsFields t.match_fields) info.tables
  pub actions : All (λ (a : P4Action). FitsFields a.params) info.actions
  pub buckets : (b : ℕ) → b < max_hash_size → hashed_to b (elements_of info) ≤ redundancy_map

-- After `dev_mgr_init`, a P4Info whose argument lists fit and whose ids are spread, at most four to a
-- hash value, is loaded: the request succeeds, and a lookup finds the first table, action or counter
-- that has the id, and nothing under any other id.
pub fresh_config-first_with :
    (disk : Disk) (dm : Device) (saved : Saved) (action : SetAction) (config : PipelineConfig)
    → takes_config action ≡ true
    → IsSpread (p4info_of config)
    → Returns (dev_mgr_set_pipeline_config disk (dev_mgr_init dm) saved action config) λ r.
      (r.0 ≡ initial_status)
      × ((q : ℕ) → get_element r.1.id_map q ≡ first_with (elements_of (p4info_of config)) q)
unfolding dev_mgr_init
fresh_config-first_with disk dm saved action config takes spread =
    let info : P4Info = p4info_of config in
    let fits : FitsInfo by_bucket (dev_mgr_init dm).id_map info [] = record {
      tables = spread.tables;
      actions = spread.actions;
      room =
          rw (append-nil (elements_of info))
            (init_map-FitsBuckets (elements_of info) spread.buckets);
    } in
    let (r, run, (succeeds, loaded, _)) =
      set_config-Loaded disk (dev_mgr_init dm) saved action config takes by_bucket init_map-IsProbed
        fits in
    (r, run, (succeeds, λ q. loaded.loads q ∙ ground (arith, get_element-init_map q)))
