-- ===== src/Manager/Write.antt =====
-- `dev_mgr_write` of server/device_mgr.c against a plain description of what it does.
use p4runtime_grpcpp.Base.{
  ◌≡◌, refl, List, [], ◌∷◌, ◌++◌, ok, Run, Run-cases, inl, inr, ◌>>=◌, arith,
}
use p4runtime_grpcpp.Counter.{counter_write}
use p4runtime_grpcpp.Device.{Device}
use p4runtime_grpcpp.DigestMap.{DigestMap, activate}
use p4runtime_grpcpp.Manager.{
  P4ErrorReporter, no_errors, push_back, get_status, write_update, write_updates, unknown_entity,
  dev_mgr_write,
}
use p4runtime_grpcpp.Messages.{Platform, Call}
use p4runtime_grpcpp.Proto.{
  StatusCode, Status, status_of, status_ok, Entity, UpdateType, Update, continue_on_error,
  WriteRequest,
}
use p4runtime_grpcpp.Table.{send, table_insert, add_action, table_modify, table_delete, table_write}

-- The digests that the updates ask for are switched on, in order, and nothing else changes.
abbrev pub activations : DigestMap → List Update → DigestMap
activations ds [] = ds
activations ds (u ∷ us) = elim (u.entity) [
  | Entity.digest_entry digest_id ↦ activations (activate ds digest_id) us
  | _ ↦ activations ds us
]

-- What one update sends to the data plane: the calls of an inserted table entry.
abbrev pub sent_by : Platform → Device → Update → Run (List Call)
sent_by p dm u = elim (u.entity) [
  | Entity.table_entry entry ↦ elim (u.type) [
    | UpdateType.insert ↦ do (status, calls) ← table_insert p dm entry; ok calls
    | _ ↦ ok []
  ]
  | _ ↦ ok []
]

abbrev pub sent : Platform → Device → List Update → Run (List Call)
sent p dm [] = ok []
sent p dm (u ∷ us) = do calls ← sent_by p dm u; more ← sent p dm us; ok (calls ++ more)

-- Which digests are switched on is nothing to the data plane.
sent_by-digests :
    (p : Platform) (dm : Device) (ds : DigestMap) (u : Update)
    → sent_by p (record dm { digest_map = ds }) u ≡ sent_by p dm u
unfolding table_insert add_action send
sent_by-digests p dm ds u = refl

pub sent-digests :
    (p : Platform) (dm : Device) (ds : DigestMap) (us : List Update)
    → sent p (record dm { digest_map = ds }) us ≡ sent p dm us
sent-digests p dm ds [] = refl
sent-digests p dm ds (u ∷ us) = rw (sent_by-digests p dm ds u, sent-digests p dm ds us)

abbrev Describes : Platform → List Update → Device → Status → P4ErrorReporter → Type 0
Describes p us dm status reporter = write_updates p dm status reporter us ≡ (
    sent p dm us >>= λ calls.
    ok (reporter, record dm { digest_map = activations dm.digest_map us }, calls))

update-Describes :
    (p : Platform) (us : List Update) (dm : Device) (status : Status) (reporter : P4ErrorReporter)
    (type : UpdateType) (entity : Entity)
    → ((dm' : Device) (status' : Status) → Describes p us dm' status' reporter)
    → Describes p (record { type = type; entity = entity } ∷ us) dm status reporter
unfolding write_updates write_update push_back table_write
update-Describes p us dm status reporter UpdateType.insert (Entity.table_entry entry) ih =
    elim (Run-cases (table_insert p dm entry)) [
      | inl ((status', calls), run) ↦ ground (arith, run, ih dm status')
      | inr (e, run) ↦ ground (arith, run)
    ]
update-Describes p us dm status reporter UpdateType.unspecified (Entity.table_entry entry) ih =
    ground (arith, ih dm (status_of StatusCode.invalid_argument "Invalid argument"))
update-Describes p us dm status reporter UpdateType.modify (Entity.table_entry entry) ih =
    ground (arith, ih dm (table_modify dm entry))
update-Describes p us dm status reporter UpdateType.delete (Entity.table_entry entry) ih =
    ground (arith, ih dm (table_delete dm entry))
update-Describes p us dm status reporter UpdateType.unrecognized (Entity.table_entry entry) ih =
    ground (arith, ih dm (status_of StatusCode.unknown "Unknown update message"))
update-Describes p us dm status reporter type (Entity.counter_entry entry) ih =
    ground (arith, ih dm (counter_write dm type entry))
update-Describes p us dm status reporter type Entity.direct_counter_entry ih =
    ground (arith, ih dm status)
update-Describes p us dm status reporter type (Entity.digest_entry digest_id) ih =
    let ds : DigestMap = activate dm.digest_map digest_id in
    ground (arith, ih (record dm { digest_map = ds }) status, sent-digests p dm ds us)
update-Describes p us dm status reporter type Entity.other ih = ground (arith, ih dm unknown_entity)

write_updates-Describes :
    (p : Platform) (us : List Update) (dm : Device) (status : Status) (reporter : P4ErrorReporter)
    → Describes p us dm status reporter
unfolding write_updates
write_updates-Describes p [] dm status reporter = refl
write_updates-Describes p (u ∷ us) dm status reporter =
    update-Describes p us dm status reporter u.type u.entity
      (λ dm' status'. write_updates-Describes p us dm' status' reporter)

-- A request that goes on after errors answers `OK` whatever its updates answer, sends the data plane
-- the inserted table entries in order, and changes nothing but which digests are switched on. It
-- faults exactly when one of the insertions does.
pub dev_mgr_write-sent :
    (p : Platform) (dm : Device) (request : WriteRequest)
    → request.atomicity ≡ continue_on_error
    → dev_mgr_write p dm request ≡ (
        sent p dm request.updates >>= λ calls.
        ok (status_ok, record dm { digest_map = activations dm.digest_map request.updates }, calls))
unfolding dev_mgr_write get_status
dev_mgr_write-sent p dm request goes_on =
    ground (arith, goes_on, write_updates-Describes p request.updates dm status_ok no_errors)
