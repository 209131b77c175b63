-- ===== src/Server/Configured.antt =====
-- What server/pi_server.cc asks of a device before it passes a request on: that it is configured.
use p4runtime_grpcpp.Base.{
  Bool-cases, ◌⊎◌, false, subst, ℕ, ◌≡◌, refl, sym, ◌∙◌, true, List, [], ok, Run-cases, ap, inl,
  inr, ◌>>=◌, >>=-eq-ok, arith,
}
use p4runtime_grpcpp.ConfigFile.{Disk}
use p4runtime_grpcpp.Device.{Device, CounterRead, dev_mgr_init, dev_mgr_init_with_t4p4s}
use p4runtime_grpcpp.Manager.Write.{sent, dev_mgr_write-sent}
use p4runtime_grpcpp.Server.Reach.{Step, Reach, here, next}
use p4runtime_grpcpp.Server.Written.{activated, write-kept}
use p4runtime_grpcpp.Server.Stream.{message-kept}
use p4runtime_grpcpp.Messages.{Platform, Call}
use p4runtime_grpcpp.Pipeline.Set.{set_config-Configured, set_config_ignored}
use p4runtime_grpcpp.Pipeline.{takes_config, dev_mgr_set_pipeline_config}
use p4runtime_grpcpp.Proto.{
  Status, status_ok, continue_on_error, WriteRequest, ReadRequest, SetAction, PipelineConfig,
  ResponseType,
}
use p4runtime_grpcpp.Server.{
  Server, no_pipeline_config_status, empty_config, write, read, set_config, get_config,
}

-- The step is a request with a configuration that is taken.
abbrev pub TakesStep : {p : Platform} {s s' : Server} → Step p s s' → Type 0
TakesStep (Step.sets disk device_id action config status s'' run) = takes_config action ≡ true
TakesStep _ = ⊥

-- One of the steps is.
abbrev pub Takes : {p : Platform} {s s' : Server} → Reach p s s' → Type 0
Takes here = ⊥
Takes (next reach step) = Takes reach ⊎ TakesStep step

abbrev IsBare : Server → Type 0
IsBare s = s.dm.has_p4info ≡ 0

set_config-IsBare :
    (disk : Disk) (s s' : Server) (device_id : ℕ) (action : SetAction) (config : PipelineConfig)
    (status : Status)
    → takes_config action ≡ false
    → set_config disk s device_id action config ≡ ok (status, s')
    → IsBare s
    → IsBare s'
unfolding set_config
set_config-IsBare disk s s' device_id action config status ignored run bare =
    let set : Device = record s.dm { device_id = device_id } in
    let same = set_config_ignored disk set s.saved action config ignored in
    let e : record s { dm = set } ≡ s' = ground (arith, same) in subst IsBare e bare

get_config-IsBare :
    (disk : Disk) (s : Server) (type : ResponseType) → IsBare s → IsBare (get_config disk s type).2
unfolding get_config
get_config-IsBare disk s type bare = rw bare refl

Step-IsBare :
    (p : Platform) (s s' : Server) (step : Step p s s') → ¬ TakesStep step → IsBare s → IsBare s'
Step-IsBare p s s' (Step.writes request status s'' calls run) quiet bare =
    write-kept IsBare p s s' request status calls run bare bare
Step-IsBare p s s' (Step.sets disk device_id action config status s'' run) quiet bare =
    elim (Bool-cases (takes_config action)) [
      | inl takes ↦ absurd (quiet takes)
      | inr ignored ↦ set_config-IsBare disk s s' device_id action config status ignored run bare
    ]
Step-IsBare p s s' (Step.gets disk type) quiet bare = get_config-IsBare disk s type bare
Step-IsBare p s s' (Step.reads request status responses run) quiet bare = bare
Step-IsBare p s s' (Step.digests now digest written run) quiet bare = bare
Step-IsBare p s s' (Step.opens stream new) quiet bare = bare
Step-IsBare p s s' (Step.messages stream m live goes) quiet bare =
    message-kept IsBare s stream m goes bare bare
Step-IsBare p s s' (Step.closes stream live) quiet bare = bare

Reach-IsBare :
    (p : Platform) (s s' : Server) (reach : Reach p s s') → ¬ Takes reach → IsBare s → IsBare s'
Reach-IsBare p s s' here quiet bare = bare
Reach-IsBare p s s' (next {t} {u} reach step) quiet bare =
    Step-IsBare p t s' step (λ takes. quiet (inr takes))
      (Reach-IsBare p s t reach (λ takes. quiet (inl takes)) bare)

-- From a server that was just started, whatever requests and streams follow, as long as none of them
-- brings a configuration that is taken: writes, reads and the question for the configuration are refused,
-- and a refusal changes nothing and sends nothing.
pub unconfigured-refuses :
    (p : Platform) (disk : Disk) (s s' : Server) (cb : ℕ) (counters : CounterRead) (device_id : ℕ)
    (reach : Reach p (record s { dm = dev_mgr_init_with_t4p4s s.dm cb counters device_id }) s')
    (wr : WriteRequest) (rr : ReadRequest) (type : ResponseType)
    → ¬ Takes reach
    → (write p s' wr ≡ ok (no_pipeline_config_status, s', []))
      × (read s' rr ≡ ok (no_pipeline_config_status, []))
      × (get_config disk s' type ≡ (no_pipeline_config_status, empty_config, s'))
unfolding write read get_config dev_mgr_init_with_t4p4s dev_mgr_init
unconfigured-refuses p disk s s' cb counters device_id reach wr rr type quiet =
    let bare = Reach-IsBare p _ s' reach quiet refl in rw bare (refl, refl, refl)

-- What a configured server answers to a write that goes on after errors, and to the question for its
-- configuration.
abbrev pub Serves : Platform → Server → WriteRequest → Type 0
Serves p s request =
    ((disk : Disk) (type : ResponseType) → (get_config disk s type).0 ≡ status_ok)
    × (write p s request ≡ (
        sent p s.dm request.updates >>= λ (calls : List Call).
        ok (status_ok, activated s request.updates, calls)))

pub configured-Serves :
    (p : Platform) (s : Server) (request : WriteRequest)
    → s.dm.has_p4info ≡ 1
    → request.atomicity ≡ continue_on_error
    → Serves p s request
unfolding write get_config
configured-Serves p s request set goes_on = (
  λ disk type. rw set refl,
  elim (Run-cases (sent p s.dm request.updates)) [
    | inl (_, returns) ↦ ground (arith, set, returns, dev_mgr_write-sent p s.dm request goes_on)
    | inr (_, faults) ↦ ground (arith, set, faults, dev_mgr_write-sent p s.dm request goes_on)
  ],
)

-- A server that took a configuration has the device id of the request and serves: a write that goes on
-- after errors sends the inserted table entries to the data plane and answers `OK`, and the
-- configuration can be asked for.
set_config-Serves :
    (p : Platform) (disk : Disk) (s s' : Server) (device_id : ℕ) (action : SetAction)
    (config : PipelineConfig) (status : Status) (request : WriteRequest)
    → takes_config action ≡ true
    → request.atomicity ≡ continue_on_error
    → set_config disk s device_id action config ≡ ok (status, s')
    → (s'.dm.device_id ≡ device_id) × Serves p s' request
unfolding set_config
set_config-Serves p disk s s' device_id action config status request takes goes_on run =
    let set : Device = record s.dm { device_id = device_id } in
    let (r, taken, is) =
      >>=-eq-ok (dev_mgr_set_pipeline_config disk set s.saved action config) _ run in
    let made = set_config-Configured disk set s.saved action config takes r.0 r.1 r.2 taken in
    let e : r.1 ≡ s'.dm = ground arith in
    (
      sym (ap (λ (d : Device). d.device_id) e) ∙ made.device_id,
      configured-Serves p s' request (sym (ap (λ (d : Device). d.has_p4info) e) ∙ made.has_p4info)
          goes_on,
    )
