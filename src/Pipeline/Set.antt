-- ===== src/Pipeline/Set.antt =====
-- The two requests of the pipeline configuration in server/device_mgr.c against one another.
use p4runtime_grpcpp.Base.{
  ap, Fault, fault, ◌≤◌, ◌≡◌, refl, sym, subst, ◌∙◌, true, false, List, [], Option, none, some,
  or_else, Bytes, length, ok, Returns, ◌>>=◌, >>=-eq-ok, arith,
}
use p4runtime_grpcpp.ConfigFile.RoundTrip.{change_config-Holds, read_config-Holds}
use p4runtime_grpcpp.ConfigFile.{Disk, change_config}
use p4runtime_grpcpp.Device.{Device, Saved}
use p4runtime_grpcpp.DigestMap.{find}
use p4runtime_grpcpp.IdMap.Capacity.{Capacity}
use p4runtime_grpcpp.IdMap.Lookup.{IsProbed}
use p4runtime_grpcpp.IdMap.{Element, IdMap}
use p4runtime_grpcpp.Pipeline.AddDigests.{last_named, find-add_digests}
use p4runtime_grpcpp.Pipeline.Load.{elements_of, Loaded, FitsInfo, add_info-Loaded}
use p4runtime_grpcpp.Pipeline.{
  initial_status, add_digests, add_info, takes_config, dev_mgr_set_pipeline_config,
  dev_mgr_get_pipeline_config,
}
use p4runtime_grpcpp.Proto.{Status, PipelineConfig, p4info_of, cookie_of, SetAction, ResponseType}

-- What a configuration that was taken leaves behind.
pub record Configured (dm : Device) (config : PipelineConfig) (dm' : Device) (saved' : Saved)
    : Type 0 where
  pub has_p4info : dm'.has_p4info ≡ 1
  pub p4info : dm'.p4info ≡ p4info_of config
  pub digests :
      (name : Bytes) → find dm'.digest_map name ≡ last_named (p4info_of config).digests name
  pub digest_map : dm'.digest_map ≡ add_digests [] (p4info_of config).digests
  pub cookie : (saved'.has_config_cookie ≡ true) × (saved'.config_cookie ≡ cookie_of config)
  pub device_id : dm'.device_id ≡ dm.device_id
  pub callbacks : (dm'.cb ≡ dm.cb) × (dm'.get_counter_by_name ≡ dm.get_counter_by_name)
  pub stream : dm'.stream ≡ dm.stream

or_else-none {ℓ} : {A : Type ℓ} (o : Option A) → or_else o none ≡ o
or_else-none none = refl
or_else-none (some a) = refl

-- A request with an action that is ignored.
pub set_config_ignored :
    (disk : Disk) (dm : Device) (saved : Saved) (action : SetAction) (config : PipelineConfig)
    → takes_config action ≡ false
    → dev_mgr_set_pipeline_config disk dm saved action config ≡ ok (initial_status, dm, saved)
unfolding dev_mgr_set_pipeline_config
set_config_ignored disk dm saved action config skipped = rw skipped refl

module _ (disk : Disk) (dm : Device) (saved : Saved) (action : SetAction) (config : PipelineConfig)
    (takes : takes_config action ≡ true) where
  after : IdMap → Status × Device × Saved
  after m = (
    initial_status,
    record dm {
      p4info = p4info_of config;
      has_p4info = 1;
      id_map = m;
      digest_map = add_digests [] (p4info_of config).digests;
    },
    record {
      config_cookie = cookie_of config;
      device_config = change_config disk config.p4_device_config saved.device_config;
      has_config_cookie = true;
    },
  )

  set_config-add_info :
      dev_mgr_set_pipeline_config disk dm saved action config
      ≡ (add_info dm.id_map (p4info_of config) >>= λ m. ok (after m))
  unfolding dev_mgr_set_pipeline_config after
  set_config-add_info = rw takes

  -- A request that ended loaded the P4Info to the id map.
  pub set_config-add_info_ok :
      (status : Status) (dm' : Device) (saved' : Saved)
      → dev_mgr_set_pipeline_config disk dm saved action config ≡ ok (status, dm', saved')
      → (add_info dm.id_map (p4info_of config) ≡ ok dm'.id_map) × (status ≡ initial_status)
  unfolding after
  set_config-add_info_ok status dm' saved' run =
      let (m, added, is) =
        >>=-eq-ok (add_info dm.id_map (p4info_of config)) (λ m. ok (after m))
          (sym set_config-add_info ∙ run) in
      let e₁ : (after m).1 ≡ dm' = ground arith in
      let e₂ : (after m).0 ≡ status = ground arith in
      (added ∙ ap (λ (d : Device). ok d.id_map) e₁, sym e₂)

  pub set_config-fault :
      (reason : Fault)
      → add_info dm.id_map (p4info_of config) ≡ fault reason
      → dev_mgr_set_pipeline_config disk dm saved action config ≡ fault reason
  unfolding after
  set_config-fault reason over = set_config-add_info ∙ ground (arith, over)

  after-Configured : (m : IdMap) → Configured dm config (after m).1 (after m).2
  unfolding after find
  after-Configured m = record {
    has_p4info = refl;
    p4info = refl;
    digests = λ name. find-add_digests [] (p4info_of config).digests name ∙ or_else-none _;
    digest_map = refl;
    cookie = (refl, refl);
    device_id = refl;
    callbacks = (refl, refl);
    stream = refl;
  }

  pub set_config-Configured :
      (status : Status) (dm' : Device) (saved' : Saved)
      → dev_mgr_set_pipeline_config disk dm saved action config ≡ ok (status, dm', saved')
      → Configured dm config dm' saved'
  set_config-Configured status dm' saved' run =
      let (m, _, is) =
        >>=-eq-ok (add_info dm.id_map (p4info_of config)) (λ m. ok (after m))
          (sym set_config-add_info ∙ run) in
      let e₁ : (after m).1 ≡ dm' = ground arith in
      let e₂ : (after m).2 ≡ saved' = ground arith in
      subst (Configured dm config dm') e₂
        (subst (λ d. Configured dm config d (after m).2) e₁ (after-Configured m))

  -- A P4Info that fits is stored whole, and there is room left for what comes after it.
  pub set_config-Loads :
      (c : Capacity) (es : List Element)
      → IsProbed dm.id_map
      → FitsInfo c dm.id_map (p4info_of config) es
      → Returns (dev_mgr_set_pipeline_config disk dm saved action config) λ r.
        (r.0 ≡ initial_status)
        × Loaded dm.id_map (elements_of (p4info_of config)) r.1.id_map
        × Configured dm config r.1 r.2
        × c.HasRoom r.1.id_map es
  unfolding after
  set_config-Loads c es probed fits =
      let (m, run, (loaded, room)) =
        add_info-Loaded c dm.id_map (p4info_of config) es probed fits in
      (after m, rw (set_config-add_info, run) refl, (refl, loaded, after-Configured m, room))

  -- On an id map that can be probed, a P4Info that fits is stored whole: the request succeeds,
  -- every id is found with the first element that has it, unless the map knew the id before, and
  -- the flag, the P4Info, the digests, the cookie, the callbacks and the stream are as `Configured`
  -- says.
  pub set_config-Loaded :
      (c : Capacity)
      → IsProbed dm.id_map
      → FitsInfo c dm.id_map (p4info_of config) []
      → Returns (dev_mgr_set_pipeline_config disk dm saved action config) λ r.
        (r.0 ≡ initial_status)
        × Loaded dm.id_map (elements_of (p4info_of config)) r.1.id_map
        × Configured dm config r.1 r.2
  set_config-Loaded c probed fits =
      let (r, run, (succeeds, loaded, configured, _)) = set_config-Loads c [] probed fits in
      (r, run, (succeeds, loaded, configured))

  -- If the temporary file is there, has room and can be rewound, the configuration that was taken
  -- comes back: each type of response holds the parts that it asks for, and the cookie.
  pub get_config-set_config :
      (disk' : Disk) (status : Status) (dm' : Device) (saved' : Saved)
      → disk.tmpfile_ok ≡ true
      → length config.p4_device_config ≤ disk.room
      → disk'.fseek_ok ≡ true
      → dev_mgr_set_pipeline_config disk dm saved action config ≡ ok (status, dm', saved')
      → let empty : PipelineConfig = record {
        p4info = none;
        p4_device_config = [];
        cookie = none;
      } in
        let get =
          λ (type : ResponseType). (dev_mgr_get_pipeline_config disk' dm' saved' type empty).0 in
        (get ResponseType.all ≡ record {
          p4info = some (p4info_of config);
          p4_device_config = config.p4_device_config;
          cookie = some (cookie_of config);
        })
        × (get ResponseType.cookie_only ≡ record empty { cookie = some (cookie_of config) })
        × (get ResponseType.p4info_and_cookie
            ≡ record empty { p4info = some (p4info_of config); cookie = some (cookie_of config) })
        × (get ResponseType.device_config_and_cookie ≡ record empty {
          p4_device_config = config.p4_device_config;
          cookie = some (cookie_of config);
        })
  unfolding dev_mgr_get_pipeline_config after
  get_config-set_config disk' status dm' saved' file room seek run =
      let (m, _, is) =
        >>=-eq-ok (add_info dm.id_map (p4info_of config)) (λ m. ok (after m))
          (sym set_config-add_info ∙ run) in
      let holds = change_config-Holds disk config.p4_device_config saved.device_config file room in
      let (read, _) = read_config-Holds disk' config.p4_device_config [] _ seek holds in
      let e₁ : dm' ≡ (after m).1 = ground arith in
      let e₂ : saved' ≡ (after m).2 = ground arith in rw (e₁, e₂, read) (refl, refl, refl, refl)
