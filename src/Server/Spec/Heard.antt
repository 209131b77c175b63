-- ===== src/Server/Spec/Heard.antt =====
-- The writes of server/pi_server.cc against the specification.
use p4runtime_grpcpp.Base.{
  Option, ◌≡◌, sym, subst, true, false, List, none, some, ok, arith, inl, inr, Bool, Bool-cases,
  if◌then◌else◌,
}
use p4runtime_grpcpp.Manager.{not_continue}
use p4runtime_grpcpp.Messages.{Platform, Call}
use p4runtime_grpcpp.Pipeline.AddDigests.{last_named}
use p4runtime_grpcpp.Proto.{Status, WriteRequest, PipelineConfig, p4info_of}
use p4runtime_grpcpp.Server.History.{wrote}
use p4runtime_grpcpp.Server.Spec.{Spec, Refines, apply, listens, ask}
use p4runtime_grpcpp.Server.Spec.Asked.{activations-asked}
use p4runtime_grpcpp.Server.Written.{activated, write_heard, write_refused}
use p4runtime_grpcpp.Server.{Server, write}

-- A write that is listened to: its digests are asked for.
activated-Refines :
    (s : Server) (a : Spec) (request : WriteRequest) (config : PipelineConfig)
    → a.config ≡ some config
    → Refines s a
    → Refines (activated s request.updates) (ask a request.updates)
activated-Refines s a request config is r =
    let (differ, finds) =
      activations-asked request.updates s.dm.digest_map a.asked
        (λ name. last_named (p4info_of config).digests name) r.differ
        (λ name. ground (arith, r.digests name, is)) in
    record {
      cb = r.cb;
      counters = r.counters;
      device_id = r.device_id;
      has_p4info = r.has_p4info;
      elements = r.elements;
      digests = λ name. ground (arith, finds name, is);
      differ = differ;
      stream = r.stream;
      stores = r.stores;
    }

-- As a write is listened to or not.
write_as :
    (p : Platform) (s s' : Server) (a : Spec) (request : WriteRequest) (listened : Bool)
    → listens a.config (not_continue request.atomicity) ≡ listened
    → Refines s' (if listened then ask a request.updates else a)
    → Refines s' (apply a (wrote request))
write_as p s s' a request listened is r =
    subst (λ b. Refines s' (if b then ask a request.updates else a)) (sym is) r

pub write-Refines :
    (p : Platform) (s s' : Server) (a : Spec) (request : WriteRequest) (status : Status)
    (calls : List Call) (config : Option PipelineConfig)
    → a.config ≡ config
    → write p s request ≡ ok (status, s', calls)
    → Refines s a
    → Refines s' (apply a (wrote request))
write-Refines p s s' a request status calls none is run r =
    let bare : s.dm.has_p4info ≡ 0 = ground (arith, r.has_p4info, is) in
    let same = write_refused p s s' request status calls (inl bare) run in
    write_as p s s' a request false (ground (arith, is)) (subst (λ t. Refines t a) same r)
write-Refines p s s' a request status calls (some config) is run r =
    elim (Bool-cases (not_continue request.atomicity)) [
      | inl atomic ↦
          let same = write_refused p s s' request status calls (inr atomic) run in
          write_as p s s' a request false (ground (arith, is, atomic))
            (subst (λ t. Refines t a) same r)
      | inr goes_on ↦
          let is_set : s.dm.has_p4info ≡ 1 = ground (arith, r.has_p4info, is) in
          let made = write_heard p s s' request status calls is_set goes_on run in
          write_as p s s' a request true (ground (arith, is, goes_on)) (
            subst (λ t. Refines t (ask a request.updates)) made
              (activated-Refines s a request config is r))
    ]
