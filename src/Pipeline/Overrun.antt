-- ===== src/Pipeline/Overrun.antt =====
-- `dev_mgr_set_pipeline_config` of server/device_mgr.c on a P4Info whose argument lists or names do
-- not fit the arrays of utils/map.h.
use mathlib.Core.List.{append-nil}
use p4runtime_grpcpp.Base.{
  ℕ, ◌≡◌, ◌⊎◌, inl, inr, true, List, [], ◌∷◌, ◌++◌, map, All, some, fault, overflow, Returns, c_str,
  arith,
}
use p4runtime_grpcpp.ConfigFile.{Disk}
use p4runtime_grpcpp.Device.{Device, Saved}
use p4runtime_grpcpp.IdMap.Capacity.{Capacity}
use p4runtime_grpcpp.IdMap.Lookup.{IsProbed}
use p4runtime_grpcpp.IdMap.{Element, IdMap, add_element, new_element, store, init_map}
use p4runtime_grpcpp.Pipeline.Fill.{fill-cases}
use p4runtime_grpcpp.Pipeline.Load.{
  FitsArrays, FitsFields, FitsInfo, Loaded, elements_of, described, table_element, action_element,
  counter_element, load_one, add_tables-Loaded,
}
use p4runtime_grpcpp.Pipeline.Set.{set_config-Loaded, set_config-fault}
use p4runtime_grpcpp.Pipeline.{
  initial_status, takes_config, fill, add_tables, add_actions, add_info,
  dev_mgr_set_pipeline_config,
}
use p4runtime_grpcpp.Proto.{
  MatchField, Preamble, P4Table, P4Action, P4Info, PipelineConfig, p4info_of, SetAction,
}

FitsFields-cases : (fs : List MatchField) → FitsFields fs ⊎ ¬ FitsFields fs
FitsFields-cases fs =
    let new : Element = new_element 0 [] in
    elim (fill-cases (store init_map 0 new) 0 new fs (ground arith) (omega arith)) [
      | inl (fits, _) ↦ inl fits
      | inr (no_fit, _) ↦ inr no_fit
    ]

All-cases {ℓ} :
    {A : Type ℓ} (P : A → Type 0) → ((x : A) → P x ⊎ ¬ P x) → (xs : List A) → All P xs ⊎ ¬ All P xs
All-cases P decide [] = inl tt
All-cases P decide (x ∷ xs) = elim (decide x) [
  | inr no_head ↦ inr (λ all. no_head all.0)
  | inl head ↦ elim (All-cases P decide xs) [
    | inl rest ↦ inl (head, rest)
    | inr no_rest ↦ inr (λ all. no_rest all.1)
  ]
]

module _ (c : Capacity) where
  -- One element whose arguments do not fit.
  fill_overrun :
      (m : IdMap) (p : Preamble) (fs : List MatchField) (es : List Element)
      → c.HasRoom m (described p fs ∷ es)
      → ¬ FitsFields fs
      → (i : ℕ) × (add_element m p.id (c_str p.name)
          ≡ (some i, store m i (new_element p.id (c_str p.name))))
        × (fill (store m i (new_element p.id (c_str p.name))) i fs ≡ fault overflow)
  fill_overrun m p fs es room no_fit =
      let new : Element = new_element p.id (c_str p.name) in
      let (i, run, _) = c.next m (described p fs) es (c_str p.name) room in
      elim (fill-cases (store m i new) i new fs (ground arith) (omega arith)) [
        | inl (fits, _) ↦ absurd (no_fit (record { count = fits.count; names = fits.names }))
        | inr (_, over) ↦ (i, run, over)
      ]

  tables_overrun :
      (ts : List P4Table) (m : IdMap) (es : List Element)
      → IsProbed m
      → c.HasRoom m (map table_element ts ++ es)
      → ¬ All (λ (t : P4Table). FitsFields t.match_fields) ts
      → add_tables m ts ≡ fault overflow
  unfolding add_tables
  tables_overrun [] m es probed room no_fit = absurd (no_fit tt)
  tables_overrun (t ∷ ts) m es probed room no_fit = elim (FitsFields-cases t.match_fields) [
    | inr over ↦
        let (i, added, faults) =
          fill_overrun m t.preamble t.match_fields (map table_element ts ++ es) room over in
        ground (arith, added, faults)
    | inl fits ↦
        let (i, added, filled, one, left) =
          load_one c m t.preamble t.match_fields (map table_element ts ++ es) probed fits room in
        ground (
          arith,
          added,
          filled,
          tables_overrun ts (store m i (table_element t)) es one.probed left
              (λ rest. no_fit (fits, rest)),
        )
  ]

  actions_overrun :
      (acts : List P4Action) (m : IdMap) (es : List Element)
      → IsProbed m
      → c.HasRoom m (map action_element acts ++ es)
      → ¬ All (λ (a : P4Action). FitsFields a.params) acts
      → add_actions m acts ≡ fault overflow
  unfolding add_actions
  actions_overrun [] m es probed room no_fit = absurd (no_fit tt)
  actions_overrun (a ∷ acts) m es probed room no_fit = elim (FitsFields-cases a.params) [
    | inr over ↦
        let (i, added, faults) =
          fill_overrun m a.preamble a.params (map action_element acts ++ es) room over in
        ground (arith, added, faults)
    | inl fits ↦
        let (i, added, filled, one, left) =
          load_one c m a.preamble a.params (map action_element acts ++ es) probed fits room in
        ground (
          arith,
          added,
          filled,
          actions_overrun acts (store m i (action_element a)) es one.probed left
              (λ rest. no_fit (fits, rest)),
        )
  ]

  FitsArrays-cases : (info : P4Info) → FitsArrays info ⊎ ¬ FitsArrays info
  FitsArrays-cases info =
      elim (All-cases (λ (t : P4Table). FitsFields t.match_fields)
        (λ t. FitsFields-cases t.match_fields) info.tables) [
          | inr no_tables ↦ inr (λ fits. no_tables fits.0)
          | inl tables ↦
              elim (All-cases (λ (a : P4Action). FitsFields a.params)
                (λ a. FitsFields-cases a.params) info.actions) [
                  | inr no_actions ↦ inr (λ fits. no_actions fits.1)
                  | inl actions ↦ inl (tables, actions)
                ]
        ]

  info_overrun :
      (m : IdMap) (info : P4Info)
      → IsProbed m
      → c.HasRoom m (elements_of info)
      → ¬ FitsArrays info
      → add_info m info ≡ fault overflow
  unfolding add_info
  info_overrun m info probed room no_fit =
      elim (All-cases (λ (t : P4Table). FitsFields t.match_fields)
        (λ t. FitsFields-cases t.match_fields) info.tables) [
          | inr no_tables ↦ ground (arith, tables_overrun info.tables m _ probed room no_tables)
          | inl tables ↦
              let (m₁, run, (loaded, left)) =
                add_tables-Loaded c info.tables m _ probed tables room in
              ground (
                arith,
                run,
                actions_overrun info.actions m₁ (map counter_element info.counters) loaded.probed
                    left (λ actions. no_fit (tables, actions)),
              )
        ]

-- With room for its elements in a map that can be probed, a configuration whose action is taken
-- either has argument lists of at most ten and names of at most 49 bytes, and is then stored whole,
-- or it has not, and then an array is overrun.
pub set_config-cases :
    (c : Capacity) (disk : Disk) (dm : Device) (saved : Saved) (action : SetAction)
    (config : PipelineConfig)
    → takes_config action ≡ true
    → IsProbed dm.id_map
    → c.HasRoom dm.id_map (elements_of (p4info_of config))
    → (FitsArrays (p4info_of config)
        × Returns (dev_mgr_set_pipeline_config disk dm saved action config) λ r.
          (r.0 ≡ initial_status) × Loaded dm.id_map (elements_of (p4info_of config)) r.1.id_map)
      ⊎ ((¬ FitsArrays (p4info_of config))
          × (dev_mgr_set_pipeline_config disk dm saved action config ≡ fault overflow))
set_config-cases c disk dm saved action config takes probed room =
    let info : P4Info = p4info_of config in
    elim (FitsArrays-cases c info) [
      | inl fits ↦
          let all : FitsInfo c dm.id_map info [] = record {
            tables = fits.0;
            actions = fits.1;
            room = rw (append-nil (elements_of info)) room;
          } in
          let (r, run, (succeeds, loaded, _)) =
            set_config-Loaded disk dm saved action config takes c probed all in
          inl (fits, (r, run, (succeeds, loaded)))
      | inr no_fit ↦ inr (
        no_fit,
        set_config-fault disk dm saved action config takes overflow
            (info_overrun c dm.id_map info probed room no_fit),
      )
    ]
