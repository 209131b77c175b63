-- ===== src/Server/Takes.antt =====
-- server/pi_server.cc: a configuration that comes after whatever came before.
use mathlib.Core.List.{append-nil}
use p4runtime_grpcpp.Base.{
  ℕ, ◌<◌, ◌≤◌, ◌≡◌, ◌⊎◌, inl, inr, subst, ap, ◌∙◌, Bool, true, List, [], ◌∷◌, ◌++◌, All, All-append,
  ok, fault, overflow, Bool-cases, arith, if◌then◌else◌,
}
use p4runtime_grpcpp.ConfigFile.{Disk}
use p4runtime_grpcpp.Device.{Device, CounterRead, dev_mgr_init_with_t4p4s}
use p4runtime_grpcpp.IdMap.Bucket.{by_bucket, FitsBuckets, hashed_to}
use p4runtime_grpcpp.IdMap.Lookup.{IsProbed}
use p4runtime_grpcpp.IdMap.{Element, max_hash_size, redundancy_map}
use p4runtime_grpcpp.Messages.{Platform}
use p4runtime_grpcpp.Pipeline.Load.{FitsArrays, elements_of}
use p4runtime_grpcpp.Pipeline.Overrun.{set_config-cases}
use p4runtime_grpcpp.Pipeline.Set.{set_config_ignored}
use p4runtime_grpcpp.Pipeline.{initial_status, takes_config}
use p4runtime_grpcpp.Proto.{SetAction, PipelineConfig, p4info_of}
use p4runtime_grpcpp.Server.History.{
  set, history, brought_by, all_brought, all_brought-append, DigestsDiffer,
}
use p4runtime_grpcpp.Server.Reach.{Reach, sets, next}
use p4runtime_grpcpp.Server.Refines.{IsUnused, FitsMap, started-replay, started-room}
use p4runtime_grpcpp.Server.Spec.{Refines, replay, fresh}
use p4runtime_grpcpp.Server.{Server, set_config}

-- The argument lists and the names of a configuration that is taken fit their arrays.
abbrev pub FitsIfTaken : SetAction → PipelineConfig → Type 0
FitsIfTaken action config = takes_config action ≡ true → FitsArrays (p4info_of config)

-- With room for what it brings, a configuration is answered, or an array is overrun.
set_config-outcome :
    (disk : Disk) (s : Server) (config_id : ℕ) (action : SetAction) (config : PipelineConfig)
    → IsProbed s.dm.id_map
    → FitsBuckets s.dm.id_map (brought_by (set config_id action config))
    → (FitsIfTaken action config
        × (s' : Server) × (set_config disk s config_id action config ≡ ok (initial_status, s')))
      ⊎ ((¬ FitsIfTaken action config)
          × (set_config disk s config_id action config ≡ fault overflow))
unfolding set_config
set_config-outcome disk s config_id action config probed room =
    let dm : Device = record s.dm { device_id = config_id } in
    elim (Bool-cases (takes_config action)) [
      | inl takes ↦
          let room' : FitsBuckets s.dm.id_map (elements_of (p4info_of config)) =
            subst
              (λ (b : Bool).
                FitsBuckets s.dm.id_map (if b then elements_of (p4info_of config) else []))
              takes room in
          elim (set_config-cases by_bucket disk dm s.saved action config takes probed room') [
            | inl (fits, ((status, dm', saved'), run, (succeeds, _))) ↦ inl (
              λ taken. fits,
              record s { dm = dm'; saved = saved' },
              ground (arith, run, succeeds),
            )
            | inr (no_fit, over) ↦ inr (λ fits. no_fit (fits takes), ground (arith, over))
          ]
      | inr skipped ↦ inl (
        λ taken. absurd (ground (arith, skipped, taken)),
        record s { dm = dm },
        ground (arith, set_config_ignored disk dm s.saved action config skipped),
      )
    ]

-- From the start of a server whose memory holds no digest and no stream on, whatever came before: a
-- request for a configuration, which with those before brings at most four elements for each hash
-- value in all, and where none has two digests with one id, is answered as `OK` if it is not taken,
-- or its argument lists and names fit their arrays, and the server is then what the specification
-- tells from the history with it; otherwise an array is overrun.
pub history-takes :
    (p : Platform) (disk : Disk) (s s' : Server) (cb : ℕ) (counters : CounterRead)
    (device_id config_id : ℕ) (action : SetAction) (config : PipelineConfig)
    (reach : Reach p (record s { dm = dev_mgr_init_with_t4p4s s.dm cb counters device_id }) s')
    → IsUnused s
    → FitsMap (history reach ++ set config_id action config ∷ [])
    → All DigestsDiffer (history reach ++ set config_id action config ∷ [])
    → (FitsIfTaken action config
        × (s'' : Server) × (set_config disk s' config_id action config ≡ ok (initial_status, s''))
        × Refines s'' (
            replay
              (fresh cb counters device_id)
              (history reach ++ set config_id action config ∷ [])))
      ⊎ ((¬ FitsIfTaken action config)
          × (set_config disk s' config_id action config ≡ fault overflow))
history-takes p disk s s' cb counters device_id config_id action config reach unused few differ =
    let brought : List Element = brought_by (set config_id action config) in
    let (before, _) =
      All-append DigestsDiffer (history reach) (set config_id action config ∷ []) differ in
    let apart : all_brought (history reach ++ set config_id action config ∷ [])
        ≡ all_brought (history reach) ++ brought =
      all_brought-append (history reach) (set config_id action config ∷ [])
      ∙ ap (◌++◌ (all_brought (history reach))) (append-nil brought) in
    let room =
      subst (λ es. (b : ℕ) → b < max_hash_size → hashed_to b es ≤ redundancy_map) apart few in
    let (_, left, probed) =
      started-room p s s' cb counters device_id reach brought unused room before in
    elim (set_config-outcome disk s' config_id action config probed left) [
      | inl (fits, s'', run) ↦
          let step = sets disk config_id action config initial_status s'' run in
          inl (
            fits,
            s'',
            run,
            started-replay p s s'' cb counters device_id (next reach step) unused few differ,
          )
      | inr over ↦ inr over
    ]
