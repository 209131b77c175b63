-- ===== src/Server/Spec/Kept.antt =====
-- The questions and the stream messages of server/pi_server.cc against the specification.
use p4runtime_grpcpp.Base.{
  ℕ, Option, ◌≡◌, refl, subst, ◌∙◌, true, none, some, arith, inl, inr, ◌==◌, Bool-cases,
}
use p4runtime_grpcpp.ConfigFile.{Disk}
use p4runtime_grpcpp.Pipeline.{dev_mgr_get_pipeline_config}
use p4runtime_grpcpp.Proto.{PipelineConfig, ResponseType}
use p4runtime_grpcpp.Server.History.{heard}
use p4runtime_grpcpp.Server.Spec.{Spec, Refines, apply, Stores}
use p4runtime_grpcpp.Server.{
  Server, StreamRequest, arbitration, packet, digest_ack, other, get_config, stream_message,
}

-- What changes neither the device nor the cookie is nothing to the specification.
pub same-Refines :
    (s s' : Server) (a : Spec)
    → s'.dm ≡ s.dm
    → (s'.saved.has_config_cookie ≡ s.saved.has_config_cookie)
      × (s'.saved.config_cookie ≡ s.saved.config_cookie)
    → Refines s a
    → Refines s' a
same-Refines s s' a device cookie r =
    subst (λ (t : Server). Refines t a) back
      (record {
        cb = r.cb;
        counters = r.counters;
        device_id = r.device_id;
        has_p4info = r.has_p4info;
        elements = r.elements;
        digests = r.digests;
        differ = r.differ;
        stream = r.stream;
        stores = stored a.config r.stores;
      })
  where
    back : record s' { dm = s.dm } ≡ s'
    back = ground (arith, device)

    stored :
        (config : Option PipelineConfig)
        → Stores config s.dm.p4info s.saved
        → Stores config s.dm.p4info s'.saved
    stored none tt = tt
    stored (some config) (info, has, is) = (info, cookie.0 ∙ has, cookie.1 ∙ is)

pub get_config-same :
    (disk : Disk) (s : Server) (type : ResponseType)
    → let s' = (get_config disk s type).2 in
      (s'.dm ≡ s.dm)
      × (s'.saved.has_config_cookie ≡ s.saved.has_config_cookie)
      × (s'.saved.config_cookie ≡ s.saved.config_cookie)
unfolding get_config dev_mgr_get_pipeline_config
get_config-same disk s type = ground arith

-- An arbitration that the handler goes on after is for the device.
pub message-Refines :
    (s : Server) (a : Spec) (stream : ℕ) (m : StreamRequest)
    → (stream_message s stream m).0 ≡ none
    → Refines s a
    → Refines (stream_message s stream m).1 (apply a (heard stream m))
unfolding stream_message
message-Refines s a stream (arbitration device_id high low) goes r =
    elim (Bool-cases (s.dm.device_id == device_id)) [
      | inl same ↦
          let same' : (a.device_id == device_id) ≡ true = ground (arith, same, r.device_id) in
          rw (same, same')
            (record {
              cb = r.cb;
              counters = r.counters;
              device_id = r.device_id;
              has_p4info = r.has_p4info;
              elements = r.elements;
              digests = r.digests;
              differ = r.differ;
              stream = refl;
              stores = r.stores;
            })
      | inr differ ↦ absurd (ground (arith, differ, goes))
    ]
message-Refines s a stream packet goes r = r
message-Refines s a stream digest_ack goes r = r
message-Refines s a stream other goes r = r
