-- ===== src/Server/Spec/Taken.antt =====
-- The configurations that server/pi_server.cc takes against the specification.
use p4runtime_grpcpp.Base.{
  ℕ, Bytes, Run, ◌>>=◌, ◌≡◌, refl, sym, subst, ◌∙◌, true, List, [], ◌∷◌, ◌++◌, ok, arith, inl, inr,
  Bool, Bool-cases, if◌then◌else◌,
}
use p4runtime_grpcpp.ConfigFile.{Disk}
use p4runtime_grpcpp.Device.{Device, Saved}
use p4runtime_grpcpp.DigestMap.Laws.{UniqueIds}
use p4runtime_grpcpp.IdMap.Bucket.{by_bucket, FitsBuckets, FitsBuckets-append}
use p4runtime_grpcpp.IdMap.Lookup.{IsProbed}
use p4runtime_grpcpp.IdMap.{Element}
use p4runtime_grpcpp.Pipeline.AddDigests.{add_digests-UniqueIds, last_named, HasUniqueIds}
use p4runtime_grpcpp.Pipeline.Load.{FitsArrays, Loaded, elements_of, first_with-append}
use p4runtime_grpcpp.Pipeline.Overrun.{set_config-cases}
use p4runtime_grpcpp.Pipeline.Set.{Configured, set_config_ignored, set_config-Loads}
use p4runtime_grpcpp.Pipeline.{takes_config, dev_mgr_set_pipeline_config}
use p4runtime_grpcpp.Proto.{Status, Preamble, P4Info, PipelineConfig, p4info_of, SetAction}
use p4runtime_grpcpp.Server.History.{set, brought_by}
use p4runtime_grpcpp.Server.Spec.{Spec, Refines, apply, asked_digest, take_config, with_id}
use p4runtime_grpcpp.Server.{Server, set_config}

-- A configuration that was taken.
configured-Refines :
    (s : Server) (a : Spec) (device_id : ℕ) (config : PipelineConfig) (dm : Device) (saved : Saved)
    → Refines s a
    → HasUniqueIds (p4info_of config).digests
    → Loaded s.dm.id_map (elements_of (p4info_of config)) dm.id_map
    → Configured (record s.dm { device_id = device_id }) config dm saved
    → Refines (record s { dm = dm; saved = saved }) (take_config a device_id config)
configured-Refines s a device_id config dm saved r unique loaded made = record {
  cb = made.callbacks.0 ∙ r.cb;
  counters = made.callbacks.1 ∙ r.counters;
  device_id = made.device_id;
  has_p4info = made.has_p4info;
  elements = λ q. ground (
    arith,
    loaded.loads q,
    r.elements q,
    first_with-append a.elements (elements_of (p4info_of config)) q,
  );
  digests = λ name. made.digests name ∙ nobody_asked (p4info_of config).digests name;
  differ =
      subst UniqueIds (sym made.digest_map)
        (add_digests-UniqueIds (p4info_of config).digests unique);
  stream = made.stream ∙ r.stream;
  stores = (made.p4info, made.cookie.0, made.cookie.1);
}
  where
    nobody_asked :
        (ds : List Preamble) (name : Bytes)
        → last_named ds name ≡ asked_digest [] (last_named ds name)
    nobody_asked [] name = refl
    nobody_asked (d ∷ rest) name = ground (arith, nobody_asked rest name)

-- A configuration that was taken, for which there was room, fits its arrays.
taken_fits :
    (disk : Disk) (dm : Device) (saved : Saved) (action : SetAction) (config : PipelineConfig)
    {B : Type 0} (behind : Status × Device × Saved → Run B) {result : B}
    → takes_config action ≡ true
    → IsProbed dm.id_map
    → FitsBuckets dm.id_map (elements_of (p4info_of config))
    → (dev_mgr_set_pipeline_config disk dm saved action config >>= behind) ≡ ok result
    → FitsArrays (p4info_of config)
taken_fits disk dm saved action config behind takes probed room run =
    elim (set_config-cases by_bucket disk dm saved action config takes probed room) [
      | inl (fits, _) ↦ fits
      | inr (_, over) ↦ absurd (ground (arith, over))
    ]

-- A request for a configuration, while there is room for its elements and for others.
pub set_config-Refines :
    (disk : Disk) (s s' : Server) (a : Spec) (device_id : ℕ) (action : SetAction)
    (config : PipelineConfig) (status : Status) (es : List Element)
    → set_config disk s device_id action config ≡ ok (status, s')
    → IsProbed s.dm.id_map
    → HasUniqueIds (p4info_of config).digests
    → FitsBuckets s.dm.id_map (brought_by (set device_id action config) ++ es)
    → Refines s a
    → Refines s' (apply a (set device_id action config)) × FitsBuckets s'.dm.id_map es
unfolding set_config
set_config-Refines disk s s' a device_id action config status es run probed unique room r =
    let dm : Device = record s.dm { device_id = device_id } in
    elim (Bool-cases (takes_config action)) [
      | inl takes ↦
          let info : P4Info = p4info_of config in
          let room' : FitsBuckets s.dm.id_map (elements_of info ++ es) =
            subst
              (λ (b : Bool). FitsBuckets s.dm.id_map ((if b then elements_of info else []) ++ es))
              takes room in
          let fits =
            taken_fits disk dm s.saved action config _ takes probed
              (FitsBuckets-append s.dm.id_map (elements_of info) es room') run in
          let ((status', dm', saved'), taken, (_, loaded, made, left)) =
            set_config-Loads disk dm s.saved action config takes by_bucket es probed
              (record { tables = fits.0; actions = fits.1; room = room' }) in
          let e : record s { dm = dm'; saved = saved' } ≡ s' = ground (arith, taken) in
          let done = configured-Refines s a device_id config dm' saved' r unique loaded made in
          rw takes (
            subst (λ t. Refines t (take_config a device_id config)) e done,
            subst (λ (t : Server). FitsBuckets t.dm.id_map es) e left,
          )
      | inr skipped ↦
          let e : record s { dm = dm } ≡ s' =
            ground (arith, set_config_ignored disk dm s.saved action config skipped) in
          let left : FitsBuckets s.dm.id_map es =
            subst
              (λ (b : Bool).
                FitsBuckets s.dm.id_map ((if b then elements_of (p4info_of config) else []) ++ es))
              skipped room in
          rw skipped (
            subst (λ t. Refines t (with_id a device_id)) e
                (record {
                  cb = r.cb;
                  counters = r.counters;
                  device_id = refl;
                  has_p4info = r.has_p4info;
                  elements = r.elements;
                  digests = r.digests;
                  differ = r.differ;
                  stream = r.stream;
                  stores = r.stores;
                }),
            subst (λ (t : Server). FitsBuckets t.dm.id_map es) e left,
          )
    ]
