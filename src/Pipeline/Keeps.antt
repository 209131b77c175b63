-- ===== src/Pipeline/Keeps.antt =====
-- What `dev_mgr_set_pipeline_config` of server/device_mgr.c leaves as it was, whatever it is asked.
use p4runtime_grpcpp.Base.{◌≡◌, sym, subst, ◌∙◌, [], ok, arith, inl, inr, Bool-cases}
use p4runtime_grpcpp.ConfigFile.{Disk}
use p4runtime_grpcpp.Device.{Device, Saved}
use p4runtime_grpcpp.DigestMap.Laws.{IsOrdered}
use p4runtime_grpcpp.Pipeline.AddDigests.{add_digests-IsOrdered}
use p4runtime_grpcpp.Pipeline.Grow.{IsSound, Grows, add_info-Grows, Grows-refl}
use p4runtime_grpcpp.Pipeline.{initial_status, takes_config, dev_mgr_set_pipeline_config}
use p4runtime_grpcpp.Proto.{Status, P4Info, PipelineConfig, p4info_of, SetAction}
use p4runtime_grpcpp.Pipeline.Set.{
  set_config_ignored, set_config-Configured, set_config-add_info_ok,
}

pub record Keeps (dm : Device) (status : Status) (dm' : Device) : Type 0 where
  pub succeeds : status ≡ initial_status
  pub grows : Grows dm.id_map dm'.id_map
  pub ordered : IsOrdered dm'.digest_map
  pub configured : dm.has_p4info ≡ 1 → dm'.has_p4info ≡ 1

-- Whatever the request asks for, if it ends: an id that the map knew keeps the element that it had, the
-- map stays sound, the digest map stays in order, a device that was configured stays so, and the
-- status is `OK`.
pub set_config-Keeps :
    (disk : Disk) (dm dm' : Device) (saved saved' : Saved) (action : SetAction)
    (config : PipelineConfig) (status : Status)
    → IsSound dm.id_map
    → IsOrdered dm.digest_map
    → dev_mgr_set_pipeline_config disk dm saved action config ≡ ok (status, dm', saved')
    → Keeps dm status dm'
set_config-Keeps disk dm dm' saved saved' action config status sound ordered run =
    elim (Bool-cases (takes_config action)) [
      | inl takes ↦
          let info : P4Info = p4info_of config in
          let (added, succeeds) =
            set_config-add_info_ok disk dm saved action config takes status dm' saved' run in
          let made =
            set_config-Configured disk dm saved action config takes status dm' saved' run in
          record {
            succeeds = succeeds;
            grows = add_info-Grows dm.id_map dm'.id_map info sound added;
            ordered =
                subst IsOrdered (sym made.digest_map) (add_digests-IsOrdered [] info.digests tt);
            configured = λ h. made.has_p4info;
          }
      | inr ignored ↦
          let same = sym (set_config_ignored disk dm saved action config ignored) ∙ run in
          let e : dm ≡ dm' = ground arith in
          record {
            succeeds = ground arith;
            grows = subst (λ (d : Device). Grows dm.id_map d.id_map) e (Grows-refl dm.id_map sound);
            ordered = subst (λ (d : Device). IsOrdered d.digest_map) e ordered;
            configured = subst (λ (d : Device). dm.has_p4info ≡ 1 → d.has_p4info ≡ 1) e (λ h. h);
          }
    ]
