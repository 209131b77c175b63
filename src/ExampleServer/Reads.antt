-- ===== src/ExampleServer/Reads.antt =====
-- What the example of server/test_server.c answers to reads, whatever came before.
use p4runtime_grpcpp.Base.{
  ℕ, ◌≡◌, refl, List, [], ◌∷◌, Option, Option-cases, true, false, none, some, Run, ok, fault,
  null_pointer, >>=-eq-ok, Bool-cases, inl, inr, arith, ◌==◌, if◌then◌else◌,
}
use p4runtime_grpcpp.Counter.Outcome.{counter_read-refuses}
use p4runtime_grpcpp.Counter.{counter_not_found}
use p4runtime_grpcpp.ConfigFile.{Disk}
use p4runtime_grpcpp.Device.{Device, Saved, CounterRead, dev_mgr_init, dev_mgr_init_with_t4p4s}
use p4runtime_grpcpp.ExampleServer.{dummy_get_counter_by_name, main}
use p4runtime_grpcpp.IdMap.{Element, get_element}
use p4runtime_grpcpp.Manager.{dev_mgr_read, read_entities, dev_mgr_read_one}
use p4runtime_grpcpp.Messages.{Platform}
use p4runtime_grpcpp.Pipeline.Set.{set_config_ignored, set_config-Configured}
use p4runtime_grpcpp.Pipeline.{takes_config, dev_mgr_set_pipeline_config}
use p4runtime_grpcpp.Process.{Process, Reply, run_default, wait}
use p4runtime_grpcpp.Proto.{
  Status, status_ok, Entity, CounterEntry, ReadRequest, ReadResponse, SetAction, PipelineConfig,
}
use p4runtime_grpcpp.Server.Reach.{
  Step, writes, sets, gets, reads, digests, opens, messages, closes, Reach, here, next,
}
use p4runtime_grpcpp.Server.Stream.{message-kept}
use p4runtime_grpcpp.Server.Written.{write-kept}
use p4runtime_grpcpp.Server.{
  Server, no_pipeline_config_status, empty_response, read, set_config, get_config,
}

-- The function that the server asks for its counters.
abbrev Asks : CounterRead → Server → Type 0
Asks get s = s.dm.get_counter_by_name ≡ some get

set_config-Asks :
    (get : CounterRead) (disk : Disk) (s s' : Server) (device_id : ℕ) (action : SetAction)
    (config : PipelineConfig) (status : Status)
    → set_config disk s device_id action config ≡ ok (status, s')
    → Asks get s
    → Asks get s'
unfolding set_config
set_config-Asks get disk s s' device_id action config status run asks =
    let set : Device = record s.dm { device_id = device_id } in
    let (r, taken, is) =
      >>=-eq-ok (dev_mgr_set_pipeline_config disk set s.saved action config) _ run in
    elim (Bool-cases (takes_config action)) [
      | inl takes ↦
          let made = set_config-Configured disk set s.saved action config takes r.0 r.1 r.2 taken in
          ground (arith, made.callbacks, is)
      | inr skipped ↦
          ground (arith, is, set_config_ignored disk set s.saved action config skipped, taken)
    ]

Step-Asks :
    (p : Platform) (get : CounterRead) (s s' : Server) → Step p s s' → Asks get s → Asks get s'
unfolding get_config
Step-Asks p get s s' (writes request status s'' calls run) asks =
    write-kept (Asks get) p s s' request status calls run asks asks
Step-Asks p get s s' (sets disk device_id action config status s'' run) asks =
    set_config-Asks get disk s s' device_id action config status run asks
Step-Asks p get s s' (gets disk type) asks = ground arith
Step-Asks p get s s' (reads request status responses run) asks = asks
Step-Asks p get s s' (digests now digest written run) asks = asks
Step-Asks p get s s' (opens stream new) asks = asks
Step-Asks p get s s' (messages stream m live goes) asks =
    message-kept (Asks get) s stream m goes asks asks
Step-Asks p get s s' (closes stream live) asks = asks

Reach-Asks :
    (p : Platform) (get : CounterRead) (s s' : Server) → Reach p s s' → Asks get s → Asks get s'
Reach-Asks p get s s' here asks = asks
Reach-Asks p get s s' (next {t} {u} reach step) asks =
    Step-Asks p get t s' step (Reach-Asks p get s t reach asks)

-- What comes of a read: nothing is in the response, and a counter that is not known, if it comes first,
-- ends the process.
abbrev pub no_values : Server → List Entity → Run (Status × List ReadResponse)
no_values s [] = ok (status_ok, empty_response ∷ [])
no_values s (Entity.counter_entry entry ∷ es) = elim (get_element s.dm.id_map entry.counter_id) [
  | none ↦ fault null_pointer
  | some elem ↦ ok (status_ok, empty_response ∷ [])
]
no_values s (e ∷ es) = ok (status_ok, empty_response ∷ [])

dummy_read :
    (dm : Device) (rest : ℕ) (entry : CounterEntry) (elem : Element)
    → dm.get_counter_by_name ≡ some (dummy_get_counter_by_name rest)
    → get_element dm.id_map entry.counter_id ≡ some elem
    → dev_mgr_read_one dm (Entity.counter_entry entry) empty_response
      ≡ ok (counter_not_found elem.value, empty_response)
unfolding dev_mgr_read_one
dummy_read dm rest entry elem set found =
    counter_read-refuses dm entry empty_response _
      (inr (elem, dummy_get_counter_by_name rest, found, set, inl (inr refl, inr refl, refl)))

read-no_values :
    (s : Server) (rest device_id : ℕ) (entities : List Entity)
    → Asks (dummy_get_counter_by_name rest) s
    → (s.dm.has_p4info == 0) ≡ false
    → read s (record { device_id = device_id; entities = entities }) ≡ no_values s entities
unfolding read dev_mgr_read read_entities
read-no_values s rest device_id [] asks set = ground (arith, set)
read-no_values s rest device_id (Entity.counter_entry entry ∷ es) asks set =
    elim (Option-cases (get_element s.dm.id_map entry.counter_id)) [
      | inl unknown ↦
          let fails = counter_read-refuses s.dm entry empty_response _ (inl (inl unknown, refl)) in
          unfold dev_mgr_read_one in ground (arith, set, unknown, fails)
      | inr (elem, found) ↦ ground (arith, set, found, dummy_read s.dm rest entry elem asks found)
    ]
read-no_values s rest device_id (Entity.table_entry entry ∷ es) asks set =
    unfold dev_mgr_read_one in ground (arith, set)
read-no_values s rest device_id (Entity.direct_counter_entry ∷ es) asks set =
    unfold dev_mgr_read_one in ground (arith, set)
read-no_values s rest device_id (Entity.digest_entry digest_id ∷ es) asks set =
    unfold dev_mgr_read_one in ground (arith, set)
read-no_values s rest device_id (Entity.other ∷ es) asks set =
    unfold dev_mgr_read_one in ground (arith, set)

read_bare :
    (s : Server) (request : ReadRequest)
    → (s.dm.has_p4info == 0) ≡ true
    → read s request ≡ ok (no_pipeline_config_status, [])
unfolding read
read_bare s request bare = rw bare refl

-- The server of the example, once it is up, whatever writes, configurations, streams and digests
-- follow: while it is not configured a read is refused, and afterwards it answers `OK` with a
-- response that holds nothing, but for a counter that is not known and comes first, with which the
-- process ends.
pub main-no_values :
    (p : Platform) (dm dm' : Device) (process process' : Process) (cb rest : ℕ) (bound : Option ℕ)
    (reply : Reply) (saved : Saved) (s' : Server)
    (reach : Reach p (record { dm = dm'; saved = saved; live = [] }) s') (request : ReadRequest)
    → main dm process cb rest bound ≡ ok (dm', process', reply)
    → read s' request ≡ (
        if s'.dm.has_p4info == 0
        then ok (no_pipeline_config_status, [])
        else no_values s' request.entities)
unfolding main dev_mgr_init_with_t4p4s dev_mgr_init
main-no_values p dm dm' process process' cb rest bound reply saved s' reach request run =
    let (_, _, is) = >>=-eq-ok (wait (run_default process bound)) _ run in
    let start : dm'.get_counter_by_name ≡ some (dummy_get_counter_by_name rest) =
      ground (arith, is) in
    let asks = Reach-Asks p (dummy_get_counter_by_name rest) _ s' reach start in
    elim (Bool-cases (s'.dm.has_p4info == 0)) [
      | inl bare ↦ rw bare (read_bare s' request bare)
      | inr set ↦ rw set (read-no_values s' rest request.device_id request.entities asks set)
    ]
