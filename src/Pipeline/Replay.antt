-- ===== src/Pipeline/Replay.antt =====
-- Configurations that `dev_mgr_set_pipeline_config` takes one after the other, against the list of
-- the elements that they bring.
use p4runtime_grpcpp.Base.{
  ℕ, ◌<◌, ◌≤◌, ◌≡◌, ◌∙◌, sym, ap, refl, subst, Bool-cases, inl, inr, List, [], ◌∷◌, ◌++◌, All,
  or_else, arith, Returns, Run, ok, ◌>>=◌, if◌then◌else◌,
}
use p4runtime_grpcpp.ConfigFile.{Disk}
use p4runtime_grpcpp.Device.{Device, Saved, dev_mgr_init}
use p4runtime_grpcpp.IdMap.Bucket.{by_bucket, FitsBuckets, hashed_to, init_map-FitsBuckets}
use p4runtime_grpcpp.IdMap.Lookup.{IsProbed, init_map-IsProbed, get_element-init_map}
use p4runtime_grpcpp.IdMap.{Element, get_element, max_hash_size, redundancy_map}
use p4runtime_grpcpp.Pipeline.Load.{FitsArrays, first_with, first_with-append, elements_of}
use p4runtime_grpcpp.Pipeline.Set.{set_config_ignored, set_config-Loads}
use p4runtime_grpcpp.Pipeline.{takes_config, dev_mgr_set_pipeline_config}
use p4runtime_grpcpp.Proto.{P4Info, PipelineConfig, p4info_of, SetAction}

-- A request, and how the system answers while it is handled.
pub record ConfigRequest : Type 0 where
  pub disk : Disk
  pub action : SetAction
  pub config : PipelineConfig

unfoldable pub reconfigure : Device → Saved → List ConfigRequest → Run (Device × Saved)
reconfigure dm saved [] = ok (dm, saved)
reconfigure dm saved (r ∷ rs) = do
  (status, dm', saved') ← dev_mgr_set_pipeline_config r.disk dm saved r.action r.config
  reconfigure dm' saved' rs

-- The elements that a request brings: none, if its action is one that is ignored.
abbrev pub brought : ConfigRequest → List Element
brought r = if takes_config r.action then elements_of (p4info_of r.config) else []

abbrev pub log : List ConfigRequest → List Element
log [] = []
log (r ∷ rs) = brought r ++ log rs

abbrev pub AllFit : List ConfigRequest → Type 0
AllFit = All (λ (r : ConfigRequest). FitsArrays (p4info_of r.config))

-- From any map with room, the requests leave what was found before and then the log.
reconfigure-log :
    (rs : List ConfigRequest) (dm : Device) (saved : Saved)
    → IsProbed dm.id_map
    → FitsBuckets dm.id_map (log rs)
    → AllFit rs
    → Returns (reconfigure dm saved rs) λ s.
      (q : ℕ) → get_element s.0.id_map q ≡ or_else (get_element dm.id_map q) (first_with (log rs) q)
unfolding reconfigure
reconfigure-log [] dm saved probed room fits = ((dm, saved), refl, λ q. ground arith)
reconfigure-log (r ∷ rs) dm saved probed room fits = elim (Bool-cases (takes_config r.action)) [
  | inl takes ↦
      let info : P4Info = p4info_of r.config in
      let brings : log (r ∷ rs) ≡ elements_of info ++ log rs = rw takes refl in
      let ((status, dm', saved'), run, (_, loaded, _, left)) =
        set_config-Loads r.disk dm saved r.action r.config takes by_bucket (log rs) probed (record {
          tables = fits.0.0;
          actions = fits.0.1;
          room = subst (FitsBuckets dm.id_map) brings room;
        }) in
      let (s, rest, finds) = reconfigure-log rs dm' saved' loaded.probed left fits.1 in
      (
        s,
        rw run rest,
        λ q. ground (
          arith,
          finds q,
          loaded.loads q,
          ap (λ (es : List Element). first_with es q) brings,
          first_with-append (elements_of info) (log rs) q,
        ),
      )
  | inr skipped ↦
      let rest_of : log (r ∷ rs) ≡ log rs = rw skipped refl in
      let (s, rest, finds) =
        reconfigure-log rs dm saved probed (subst (FitsBuckets dm.id_map) rest_of room) fits.1 in
      (
        s,
        rw (set_config_ignored r.disk dm saved r.action r.config skipped) rest,
        λ q.
            finds q
            ∙ ap (λ (es : List Element). or_else (get_element dm.id_map q) (first_with es q))
                (sym rest_of),
      )
]

-- From `dev_mgr_init` on, configuration requests whose argument lists and names fit their arrays,
-- and which bring at most four elements for each hash value in all, come to an end. The id map is
-- then the log of what they brought: a lookup finds the first element that came under the id, in
-- the order of the requests, and nothing under any other id. A request with an action that is
-- ignored brings nothing.
pub reconfigure-first_with :
    (rs : List ConfigRequest) (dm : Device) (saved : Saved)
    → AllFit rs
    → ((b : ℕ) → b < max_hash_size → hashed_to b (log rs) ≤ redundancy_map)
    → Returns
        (reconfigure (dev_mgr_init dm) saved rs)
        λ s. (q : ℕ) → get_element s.0.id_map q ≡ first_with (log rs) q
unfolding dev_mgr_init
reconfigure-first_with rs dm saved fits few =
    let (s, run, finds) =
      reconfigure-log rs (dev_mgr_init dm) saved init_map-IsProbed
        (init_map-FitsBuckets (log rs) few) fits in
    (s, run, λ q. finds q ∙ ground (arith, get_element-init_map q))
