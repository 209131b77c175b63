-- ===== src/Pipeline/Order.antt =====
-- The order of the tables, actions and counters in the P4Info that `dev_mgr_set_pipeline_config`
-- loads, and what of it the id map keeps.
use mathlib.Core.List.{Perm, Permᴰ}
use mathlib.Core.Logic.{∥∥₁_elim}
use p4runtime_grpcpp.Base.{ℕ, ◌≡◌, ◌∙◌, refl, sym, true, List, [], ◌∷◌, none, arith, Returns}
use p4runtime_grpcpp.ConfigFile.{Disk}
use p4runtime_grpcpp.Device.{Device, Saved, dev_mgr_init}
use p4runtime_grpcpp.IdMap.View.{view, lookup, View-ext, Found-set}
use p4runtime_grpcpp.IdMap.{Element}
use p4runtime_grpcpp.Pipeline.Fresh.{IsSpread, fresh_config-first_with}
use p4runtime_grpcpp.Pipeline.Load.{first_with, elements_of}
use p4runtime_grpcpp.Pipeline.{takes_config, dev_mgr_set_pipeline_config}
use p4runtime_grpcpp.Proto.{PipelineConfig, p4info_of, SetAction}

-- No id is that of two elements.
abbrev pub HasUniqueKeys : List Element → Type 0
HasUniqueKeys [] = Unit
HasUniqueKeys (e ∷ es) = (first_with es e.key ≡ none) × HasUniqueKeys es

-- A list in another order has unique keys as well, and finds the same under each key.
first_with-permute :
    {es fs : List Element}
    → Permᴰ es fs
    → HasUniqueKeys es
    → HasUniqueKeys fs × ((q : ℕ) → first_with es q ≡ first_with fs q)
first_with-permute Permᴰ.nil unique = (tt, λ q. refl)
first_with-permute (Permᴰ.cons {a = a} {b = b} same d) unique =
    let (rest, finds) = first_with-permute d unique.1 in
    ((ground (arith, same, finds b.key, unique.0), rest), λ q. ground (arith, same, finds q))
first_with-permute (Permᴰ.swap {a = a} {b = b} {l = l} same same') unique =
    ground (arith, same, same', unique)
first_with-permute (Permᴰ.trans d d') unique =
    let (between, finds) = first_with-permute d unique in
    let (last, finds') = first_with-permute d' between in (last, λ q. finds q ∙ finds' q)

-- From `dev_mgr_init` on, two P4Infos that fit, with at most four ids for each hash value, unique
-- ids and the same tables, actions and counters in whatever order, leave id maps that no lookup
-- tells apart.
pub fresh_config-perm :
    (disk disk' : Disk) (dm dm' : Device) (saved saved' : Saved) (action : SetAction)
    (config config' : PipelineConfig)
    → takes_config action ≡ true
    → IsSpread (p4info_of config)
    → IsSpread (p4info_of config')
    → HasUniqueKeys (elements_of (p4info_of config))
    → Perm (elements_of (p4info_of config)) (elements_of (p4info_of config'))
    → Returns (dev_mgr_set_pipeline_config disk (dev_mgr_init dm) saved action config) λ r.
      Returns
        (dev_mgr_set_pipeline_config disk' (dev_mgr_init dm') saved' action config')
        λ r'. view r.1.id_map ≡ view r'.1.id_map
unfolding lookup
fresh_config-perm disk disk' dm dm' saved saved' action config config' takes spread spread' unique
      perm =
    let (r, run, (_, loads)) = fresh_config-first_with disk dm saved action config takes spread in
    let (r', run', (_, loads')) =
      fresh_config-first_with disk' dm' saved' action config' takes spread' in
    let finds = λ (q : ℕ). ∥∥₁_elim perm (Found-set _ _) (λ d. (first_with-permute d unique).1 q) in
    (r, run, (r', run', View-ext _ _ (λ q. loads q ∙ finds q ∙ sym (loads' q))))
