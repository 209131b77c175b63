-- ===== src/Server/Delivers.antt =====
-- server/pi_server.cc: a digest that was asked for goes out, whatever came before.
use p4runtime_grpcpp.Base.{
  ℕ, ◌≡◌, refl, ap, ◌∙◌, true, false, List, [], ◌∷◌, ◌++◌, All, some, ok, Bool-cases, inl, inr,
  arith,
}
use p4runtime_grpcpp.Device.{CounterRead, dev_mgr_init_with_t4p4s}
use p4runtime_grpcpp.DigestMap.{Digest, find}
use p4runtime_grpcpp.Digests.Send.{FieldsFit, send_digest-active}
use p4runtime_grpcpp.Digests.{P4Digest, mem, dev_mgr_send_digest}
use p4runtime_grpcpp.Manager.{not_continue}
use p4runtime_grpcpp.Messages.{Platform}
use p4runtime_grpcpp.Pipeline.AddDigests.{last_named}
use p4runtime_grpcpp.Pipeline.{takes_config}
use p4runtime_grpcpp.Proto.{WriteRequest, SetAction, PipelineConfig, p4info_of}
use p4runtime_grpcpp.Server.Asked.{IsTaken, asked_after-cases}
use p4runtime_grpcpp.Server.History.{Request, wrote, set, heard, quiet, history, DigestsDiffer}
use p4runtime_grpcpp.Server.Reach.{Reach}
use p4runtime_grpcpp.Server.Refines.{IsUnused, FitsMap, started-replay}
use p4runtime_grpcpp.Server.Spec.{Spec, apply, replay, replay-append, fresh, asked_after}
use p4runtime_grpcpp.Server.Subscribes.{delivered}
use p4runtime_grpcpp.Server.{Server, arbitration, packet, digest_ack, other}

-- The history took the configuration, no other after it, and then a write that goes on after errors
-- asked for the id.
pub record IsSubscribed (id : ℕ) (config : PipelineConfig) (rs : List Request) : Type 0 where
  pub before : List Request
  pub device_id : ℕ
  pub action : SetAction
  pub between : List Request
  pub request : WriteRequest
  pub since : List Request
  pub splits : rs ≡ before ++ set device_id action config ∷ (between ++ wrote request ∷ since)
  pub takes : takes_config action ≡ true
  pub none_between : All (λ r. ¬ IsTaken r) between
  pub goes_on : not_continue request.atomicity ≡ false
  pub asks : mem id (asked_after [] request.updates) ≡ true
  pub none_since : All (λ r. ¬ IsTaken r) since

apply-kept :
    (a : Spec) (r : Request) (config : PipelineConfig)
    → ¬ IsTaken r
    → a.config ≡ some config
    → ((apply a r).config ≡ some config)
      × ((id : ℕ) → mem id a.asked ≡ true → mem id (apply a r).asked ≡ true)
apply-kept a (wrote request) config not_taken is = (
  ground (arith, is),
  λ id asked. ground (arith, asked, asked_after-cases request.updates id a.asked),
)
apply-kept a (set device_id action config') config not_taken is =
    elim (Bool-cases (takes_config action)) [
      | inl takes ↦ absurd (not_taken takes)
      | inr skipped ↦ (ground (arith, skipped, is), λ id asked. ground (arith, skipped, asked))
    ]
apply-kept a (heard stream (arbitration device_id high low)) config not_taken is =
    (ground (arith, is), λ id asked. ground (arith, asked))
apply-kept a (heard stream packet) config not_taken is = (is, λ id asked. asked)
apply-kept a (heard stream digest_ack) config not_taken is = (is, λ id asked. asked)
apply-kept a (heard stream other) config not_taken is = (is, λ id asked. asked)
apply-kept a quiet config not_taken is = (is, λ id asked. asked)

-- While no configuration is taken, the last one stays, and so does what was asked for.
replay-kept :
    (rs : List Request) (a : Spec) (config : PipelineConfig)
    → All (λ r. ¬ IsTaken r) rs
    → a.config ≡ some config
    → ((replay a rs).config ≡ some config)
      × ((id : ℕ) → mem id a.asked ≡ true → mem id (replay a rs).asked ≡ true)
replay-kept [] a config none_taken is = (is, λ id asked. asked)
replay-kept (r ∷ rs) a config (not_taken, none_taken) is =
    let (is_one, asked_one) = apply-kept a r config not_taken is in
    let (is_all, asked_all) = replay-kept rs (apply a r) config none_taken is_one in
    (is_all, λ id asked. asked_all id (asked_one id asked))

-- The write is listened to, and the id stays asked for.
IsSubscribed-replay :
    (a : Spec) (id : ℕ) (config : PipelineConfig) (rs : List Request)
    → IsSubscribed id config rs
    → ((replay a rs).config ≡ some config) × (mem id (replay a rs).asked ≡ true)
IsSubscribed-replay a id config rs s =
    let configured : Spec = apply (replay a s.before) (set s.device_id s.action config) in
    let is : configured.config ≡ some config = ground (arith, s.takes) in
    let ready : Spec = replay configured s.between in
    let (is_ready, _) = replay-kept s.between configured config s.none_between is in
    let asking : Spec = apply ready (wrote s.request) in
    let is_asking : asking.config ≡ some config = ground (arith, is_ready) in
    let asked : mem id asking.asked ≡ true =
      ground
        (arith, is_ready, s.goes_on, s.asks, asked_after-cases s.request.updates id ready.asked) in
    let (is_told, asked_told) = replay-kept s.since asking config s.none_since is_asking in
    let told : replay a rs ≡ replay asking s.since =
      ap (replay a) s.splits
      ∙ replay-append s.before a _
      ∙ replay-append s.between configured (wrote s.request ∷ s.since) in
    (
      ap (λ (x : Spec). x.config) told ∙ is_told,
      ap (λ (x : Spec). mem id x.asked) told ∙ asked_told id asked,
    )

-- From the start of a server whose memory holds no digest and no stream on, where its
-- configurations bring at most four elements for each hash value in all, and none has two digests
-- with one id: a digest of the configuration that was taken last, whose id a write that goes on
-- after errors asked for since then, goes out in one message, under its id and with its first
-- `list_size` fields cut to their lengths, if these fit and the device keeps a stream that is
-- there. It goes to that stream, whatever else came before, between and after.
pub history-delivers :
    (p : Platform) (s s' : Server) (cb : ℕ) (counters : CounterRead) (device_id : ℕ)
    (reach : Reach p (record s { dm = dev_mgr_init_with_t4p4s s.dm cb counters device_id }) s')
    (config : PipelineConfig) (stream now : ℕ) (digest : P4Digest) (d : Digest)
    → IsUnused s
    → FitsMap (history reach)
    → All DigestsDiffer (history reach)
    → last_named (p4info_of config).digests digest.field_list_name ≡ some d
    → IsSubscribed d.id config (history reach)
    → s'.dm.stream ≡ some stream
    → mem stream s'.live ≡ true
    → FieldsFit p digest.list_size digest.fields
    → dev_mgr_send_digest p s'.live now s'.dm digest ≡ ok (delivered p stream now digest d.id)
history-delivers p s s' cb counters device_id reach config stream now digest d unused few differ
      named subscribed at there fit =
    let start : Spec = fresh cb counters device_id in
    let r = started-replay p s s' cb counters device_id reach unused few differ in
    let (is, asked) = IsSubscribed-replay start d.id config (history reach) subscribed in
    let on : Digest = record d { active = true } in
    let known : find s'.dm.digest_map digest.field_list_name ≡ some on =
      ground (arith, r.digests digest.field_list_name, is, named, asked) in
    send_digest-active p s'.live now s'.dm digest on known refl fit stream at there
