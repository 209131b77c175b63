-- ===== src/Tests/Configs.antt =====
-- Configurations of server/device_mgr.c one after the other, and the files behind them, at concrete
-- values.
use mathlib.Core.List.Perm
use p4runtime_grpcpp.Base.{
  ℕ, ◌≡◌, ◌+◌, refl, true, false, List, [], ◌∷◌, none, some, ok, Returns, arith,
}
use p4runtime_grpcpp.ConfigFile.Handles.{Files, lifetime, count_true, lifetime-open_files}
use p4runtime_grpcpp.Device.{dev_mgr_init}
use p4runtime_grpcpp.IdMap.Bucket.{hashed_to-le}
use p4runtime_grpcpp.IdMap.View.{view}
use p4runtime_grpcpp.IdMap.{get_element}
use p4runtime_grpcpp.Pipeline.Fresh.{IsSpread}
use p4runtime_grpcpp.Pipeline.Load.{first_with, elements_of}
use p4runtime_grpcpp.Pipeline.Order.{fresh_config-perm}
use p4runtime_grpcpp.Pipeline.Replay.{ConfigRequest, log, reconfigure, reconfigure-first_with}
use p4runtime_grpcpp.Pipeline.{dev_mgr_set_pipeline_config}
use p4runtime_grpcpp.Proto.{p4info_of, Preamble, PipelineConfig, SetAction}
use p4runtime_grpcpp.Tests.{good_disk, empty_device, nothing_saved}

-- Two counters, in either order.
abbrev counters_of : List Preamble → PipelineConfig
counters_of cs = record {
  p4info = some (record { tables = []; actions = []; counters = cs; digests = [] });
  p4_device_config = [];
  cookie = none;
}

abbrev rx : Preamble
rx = record { id = 3; name = 1 ∷ [] }

abbrev tx : Preamble
tx = record { id = 4; name = 2 ∷ [] }

abbrev request : SetAction → List Preamble → ConfigRequest
request action cs = record { disk = good_disk; action = action; config = counters_of cs }

two_IsSpread : (a b : Preamble) → IsSpread (p4info_of (counters_of (a ∷ b ∷ [])))
two_IsSpread a b = record {
  tables = tt;
  actions = tt;
  buckets = λ bucket lt.
      omega (arith, hashed_to-le bucket (elements_of (p4info_of (counters_of (a ∷ b ∷ [])))));
}

fresh_config-perm_example :
    Returns
      (dev_mgr_set_pipeline_config good_disk
        (dev_mgr_init empty_device)
        nothing_saved
        SetAction.verify
        (counters_of (rx ∷ tx ∷ [])))
      λ r.
        Returns
          (dev_mgr_set_pipeline_config good_disk
            (dev_mgr_init empty_device)
            nothing_saved
            SetAction.verify
            (counters_of (tx ∷ rx ∷ [])))
          λ r'. view r.1.id_map ≡ view r'.1.id_map
fresh_config-perm_example =
    fresh_config-perm good_disk good_disk empty_device empty_device nothing_saved nothing_saved
      SetAction.verify (counters_of (rx ∷ tx ∷ [])) (counters_of (tx ∷ rx ∷ [])) refl
      (two_IsSpread rx tx) (two_IsSpread tx rx) (refl, (refl, tt)) (Perm.swap _ _ _)

-- Of three requests the second has an action that is ignored.
abbrev three_requests : List ConfigRequest
three_requests =
    request SetAction.verify (rx ∷ [])
    ∷ request SetAction.commit (tx ∷ [])
    ∷ request SetAction.verify (tx ∷ [])
    ∷ []

reconfigure-first_with_example :
    Returns
      (reconfigure (dev_mgr_init empty_device) nothing_saved three_requests)
      λ s. (q : ℕ) → get_element s.0.id_map q ≡ first_with (log three_requests) q
reconfigure-first_with_example =
    reconfigure-first_with three_requests empty_device nothing_saved
      ((tt, tt), ((tt, tt), ((tt, tt), tt)))
      (λ b lt. omega (arith, hashed_to-le b (log three_requests)))

-- A configuration for which there is no temporary file, between two others.
abbrev some_files : Files
some_files = record { open_files = 1 ∷ 2 ∷ []; next = 3 }

lifetime-open_files_example :
    lifetime some_files (true ∷ false ∷ true ∷ [])
    ≡ ok (record some_files { next = count_true (true ∷ false ∷ true ∷ []) + 3 })
lifetime-open_files_example = lifetime-open_files some_files (true ∷ false ∷ true ∷ [])
