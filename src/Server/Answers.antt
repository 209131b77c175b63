-- ===== src/Server/Answers.antt =====
-- server/pi_server.cc: what the specification tells is all that the answers depend on.
use mathlib.Core.Quot
use p4runtime_grpcpp.Base.{
  ℕ, ◌≡◌, refl, sym, ◌∙◌, List, Option, none, some, Run, ok, ◌>>=◌, Run-cases, Bool-cases, inl, inr,
  arith, ◌==◌, All,
}
use p4runtime_grpcpp.ConfigFile.{Disk}
use p4runtime_grpcpp.Device.{Device, CounterRead, dev_mgr_init_with_t4p4s}
use p4runtime_grpcpp.DigestMap.{Digest, find}
use p4runtime_grpcpp.Digests.{P4Digest, add_members, dev_mgr_send_digest}
use p4runtime_grpcpp.IdMap.View.{view}
use p4runtime_grpcpp.Manager.Write.{sent, dev_mgr_write-sent}
use p4runtime_grpcpp.Manager.{dev_mgr_write, dev_mgr_read}
use p4runtime_grpcpp.Messages.{Platform, Call}
use p4runtime_grpcpp.Pipeline.{dev_mgr_get_pipeline_config}
use p4runtime_grpcpp.Proto.{
  Status, PipelineConfig, WriteRequest, ReadRequest, ResponseType, Atomicity, continue_on_error,
  rollback_on_error, dataplane_atomic,
}
use p4runtime_grpcpp.Server.Alike.{sent-view, read_entities-view}
use p4runtime_grpcpp.Server.History.{history, DigestsDiffer}
use p4runtime_grpcpp.Server.Reach.{Reach}
use p4runtime_grpcpp.Server.Refines.{IsUnused, FitsMap, started-replay}
use p4runtime_grpcpp.Server.Spec.{Spec, Refines, Stores, flag, replay, fresh}
use p4runtime_grpcpp.Server.Told.{SameTold, Refines-SameTold}
use p4runtime_grpcpp.Server.{
  Server, StreamRequest, arbitration, packet, digest_ack, other, write, read, get_config,
  stream_message, empty_response,
}

-- What a write answers, and what it sends the data plane.
abbrev pub answer : Run (Status × Server × List Call) → Run (Status × List Call)
answer run = run >>= λ r. ok (r.0, r.2)

abbrev device_answer : Run (Status × Device × List Call) → Run (Status × List Call)
device_answer run = run >>= λ r. ok (r.0, r.2)

-- The two servers give the same answers.
pub record AnswersAlike (p : Platform) (s t : Server) : Type 0 where
  pub writes : (request : WriteRequest) → answer (write p s request) ≡ answer (write p t request)
  pub reads : (request : ReadRequest) → read s request ≡ read t request
  pub configs :
      (disk disk' : Disk)
      → let type = ResponseType.p4info_and_cookie in
        ((get_config disk s type).0 ≡ (get_config disk' t type).0)
        × ((get_config disk s type).1 ≡ (get_config disk' t type).1)
  pub messages :
      (stream : ℕ) (m : StreamRequest)
      → ((stream_message s stream m).0 ≡ (stream_message t stream m).0)
        × ((stream_message s stream m).2 ≡ (stream_message t stream m).2)
  pub digests :
      (live : List ℕ) (now : ℕ) (digest : P4Digest)
      → dev_mgr_send_digest p live now s.dm digest ≡ dev_mgr_send_digest p live now t.dm digest

module _ (p : Platform) (dm dm' : Device) (same : view dm.id_map ≡ view dm'.id_map)
    (cb : dm.cb ≡ dm'.cb) where
  device_write :
      (request : WriteRequest) (atomicity : Atomicity)
      → request.atomicity ≡ atomicity
      → device_answer (dev_mgr_write p dm request) ≡ device_answer (dev_mgr_write p dm' request)
  unfolding dev_mgr_write
  device_write request continue_on_error is =
      let here = dev_mgr_write-sent p dm request is in
      let there = dev_mgr_write-sent p dm' request is in
      let sends = sent-view p dm dm' same cb request.updates in
      elim (Run-cases (sent p dm' request.updates)) [
        | inl (_, run) ↦ ground (arith, here, there, sends, run)
        | inr (_, run) ↦ ground (arith, here, there, sends, run)
      ]
  device_write request rollback_on_error is = ground (arith, is)
  device_write request dataplane_atomic is = ground (arith, is)

Refines-view :
    (s t : Server) (a : Spec) → Refines s a → Refines t a → view s.dm.id_map ≡ view t.dm.id_map
Refines-view s t a r r' = Quot.sound (λ q. r.elements q ∙ sym (r'.elements q))

config_answer :
    (disk disk' : Disk) (s t : Server) (config : Option PipelineConfig)
    → s.dm.has_p4info ≡ flag config
    → t.dm.has_p4info ≡ flag config
    → Stores config s.dm.p4info s.saved
    → Stores config t.dm.p4info t.saved
    → let type = ResponseType.p4info_and_cookie in
      ((get_config disk s type).0 ≡ (get_config disk' t type).0)
      × ((get_config disk s type).1 ≡ (get_config disk' t type).1)
unfolding get_config dev_mgr_get_pipeline_config
config_answer disk disk' s t none bare bare' stored stored' = ground (arith, bare, bare')
config_answer disk disk' s t (some config) set set' (info, has, cookie) (info', has', cookie') =
    ground (arith, set, set', info, has, cookie, info', has', cookie')

message_answer :
    (s t : Server) (stream : ℕ) (m : StreamRequest)
    → s.dm.device_id ≡ t.dm.device_id
    → ((stream_message s stream m).0 ≡ (stream_message t stream m).0)
      × ((stream_message s stream m).2 ≡ (stream_message t stream m).2)
unfolding stream_message
message_answer s t stream (arbitration device_id high low) same = ground (arith, same)
message_answer s t stream packet same = (refl, refl)
message_answer s t stream digest_ack same = (refl, refl)
message_answer s t stream other same = (refl, refl)

digest_answer :
    (p : Platform) (live : List ℕ) (now : ℕ) (dm dm' : Device) (digest : P4Digest)
    (known : Option Digest)
    → find dm.digest_map digest.field_list_name ≡ known
    → find dm'.digest_map digest.field_list_name ≡ known
    → dm.stream ≡ dm'.stream
    → dev_mgr_send_digest p live now dm digest ≡ dev_mgr_send_digest p live now dm' digest
unfolding dev_mgr_send_digest
digest_answer p live now dm dm' digest none found found' stream = ground (arith, found, found')
digest_answer p live now dm dm' digest (some d) found found' stream =
    elim (Run-cases (add_members p digest.list_size digest.fields)) [
      | inl (_, fit) ↦ ground (arith, found, found', stream, fit)
      | inr (_, over) ↦ ground (arith, found, found', over)
    ]

answer-write :
    (p : Platform) (s t : Server) (request : WriteRequest)
    → s.dm.has_p4info ≡ t.dm.has_p4info
    → view s.dm.id_map ≡ view t.dm.id_map
    → s.dm.cb ≡ t.dm.cb
    → answer (write p s request) ≡ answer (write p t request)
unfolding write
answer-write p s t request flags same cb =
    let device = device_write p s.dm t.dm same cb request request.atomicity refl in
    elim (Bool-cases (t.dm.has_p4info == 0)) [
      | inl bare ↦ rw (flags, bare) refl
      | inr set ↦ elim (Run-cases (dev_mgr_write p s.dm request)) [
        | inl (_, run) ↦ elim (Run-cases (dev_mgr_write p t.dm request)) [
          | inl (_, run') ↦ ground (arith, flags, set, device, run, run')
          | inr (_, run') ↦ absurd (ground (arith, device, run, run'))
        ]
        | inr (_, run) ↦ elim (Run-cases (dev_mgr_write p t.dm request)) [
          | inl (_, run') ↦ absurd (ground (arith, device, run, run'))
          | inr (_, run') ↦ ground (arith, flags, set, device, run, run')
        ]
      ]
    ]

read_answer :
    (s t : Server) (request : ReadRequest)
    → s.dm.has_p4info ≡ t.dm.has_p4info
    → view s.dm.id_map ≡ view t.dm.id_map
    → s.dm.get_counter_by_name ≡ t.dm.get_counter_by_name
    → read s request ≡ read t request
unfolding read dev_mgr_read
read_answer s t request flags same counters =
    let entities = read_entities-view s.dm t.dm same counters request.entities empty_response in
    rw (entities, flags) refl

-- Servers that one specification describes give the same answers.
Refines-AnswersAlike :
    (p : Platform) (s t : Server) (a : Spec) → Refines s a → Refines t a → AnswersAlike p s t
Refines-AnswersAlike p s t a r r' =
    let same = Refines-view s t a r r' in
    let flags : s.dm.has_p4info ≡ t.dm.has_p4info = r.has_p4info ∙ sym r'.has_p4info in
    record {
      writes = λ request. answer-write p s t request flags same (r.cb ∙ sym r'.cb);
      reads = λ request. read_answer s t request flags same (r.counters ∙ sym r'.counters);
      configs = λ disk disk'.
          config_answer disk disk' s t a.config r.has_p4info r'.has_p4info r.stores r'.stores;
      messages = λ stream m. message_answer s t stream m (r.device_id ∙ sym r'.device_id);
      digests = λ live now digest.
          digest_answer p live now s.dm t.dm digest _ (r.digests digest.field_list_name)
            (r'.digests digest.field_list_name) (r.stream ∙ sym r'.stream);
    }

-- Two histories from a start that tell the specification the same leave servers that answer alike.
pub told_alike-AnswersAlike :
    (p : Platform) (s s' t t' : Server) (cb : ℕ) (counters : CounterRead) (device_id : ℕ)
    (reach : Reach p (record s { dm = dev_mgr_init_with_t4p4s s.dm cb counters device_id }) s')
    (reach' : Reach p (record t { dm = dev_mgr_init_with_t4p4s t.dm cb counters device_id }) t')
    → IsUnused s
    → IsUnused t
    → FitsMap (history reach)
    → FitsMap (history reach')
    → All DigestsDiffer (history reach)
    → All DigestsDiffer (history reach')
    → SameTold
        (replay (fresh cb counters device_id) (history reach))
        (replay (fresh cb counters device_id) (history reach'))
    → AnswersAlike p s' t'
told_alike-AnswersAlike p s s' t t' cb counters device_id reach reach' unused unused' few few'
      differ differ' told =
    let r = started-replay p s s' cb counters device_id reach unused few differ in
    let r' = started-replay p t t' cb counters device_id reach' unused' few' differ' in
    Refines-AnswersAlike p s' t' _ (Refines-SameTold s' _ _ told r) r'
