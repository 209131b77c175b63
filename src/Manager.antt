-- ===== src/Manager.antt =====
-- The requests of server/device_mgr.c: `dev_mgr_write` and `dev_mgr_read`, with the error reporter
-- that collects what `dev_mgr_write` answers.
pub mod Write
pub mod Read
pub mod Merge
pub mod Ends
use p4runtime_grpcpp.Base.{ℕ, Bool, List, [], ◌∷◌, ◌++◌, Run, ok, ◌>>=◌, not, if◌then◌else◌}
use p4runtime_grpcpp.Counter.{counter_write, counter_read}
use p4runtime_grpcpp.Device.{Device, P4Ids}
use p4runtime_grpcpp.DigestMap.{activate}
use p4runtime_grpcpp.Messages.{Platform, Call}
use p4runtime_grpcpp.Proto.{
  StatusCode, Status, status_of, status_ok, is_ok, TableEntry, Entity, UpdateType, Update,
  Atomicity, continue_on_error, WriteRequest, ReadRequest, ReadResponse,
}
use p4runtime_grpcpp.Table.{check_p4_id, table_write}

abbrev pub direct_counter_write : Device → UpdateType → TableEntry → Status
direct_counter_write dm type entry =
    if not (check_p4_id entry.table_id P4Ids.table)
    then status_of StatusCode.unknown "P4ID is not unknown"
    else status_of StatusCode.unimplemented "Direct counters are not supported."

-- `P4ErrorReporter`: its errors, each with the number of the update, and the next number.
pub record P4ErrorReporter : Type 0 where
  pub errors : List (ℕ × Status)
  pub index : ℕ

abbrev pub no_errors : P4ErrorReporter
no_errors = record { errors = []; index = 0 }

-- `push_back`, whose body is commented out.
unfoldable pub push_back : P4ErrorReporter → Status → P4ErrorReporter
push_back reporter status = reporter

abbrev pub unknown_error : Status
unknown_error = status_of StatusCode.unknown "Unknown"

unfoldable pub get_status : P4ErrorReporter → Status
get_status reporter = elim (reporter.errors) [ [] ↦ status_ok | e ∷ es ↦ unknown_error ]

abbrev pub unknown_entity : Status
unknown_entity = status_of StatusCode.unknown "Entity case is unknown"

abbrev pub not_continue : Atomicity → Bool
not_continue continue_on_error = Bool.false
not_continue _ = Bool.true

module _ (p : Platform) where
  -- The body of the loop over the updates: the status, which an update may leave as it was, the
  -- device, and the calls of the callback.
  unfoldable pub write_update : Device → Status → Update → Run (Status × Device × List Call)
  write_update dm status update = elim (update.entity) [
    | Entity.table_entry entry ↦ do
      (status', calls) ← table_write p dm update.type entry
      ok (status', dm, calls)
    | Entity.counter_entry entry ↦ ok (counter_write dm update.type entry, dm, [])
    | Entity.direct_counter_entry ↦ ok (status, dm, [])
    | Entity.digest_entry digest_id ↦
        ok (status, record dm { digest_map = activate dm.digest_map digest_id }, [])
    | Entity.other ↦ ok (unknown_entity, dm, [])
  ]

  unfoldable pub write_updates :
      Device → Status → P4ErrorReporter → List Update → Run (P4ErrorReporter × Device × List Call)
  write_updates dm status reporter [] = ok (reporter, dm, [])
  write_updates dm status reporter (u ∷ us) = do
    (status', dm', calls) ← write_update dm status u
    (reporter', dm'', more) ← write_updates dm' status' (push_back reporter status') us
    ok (reporter', dm'', calls ++ more)

  unfoldable pub dev_mgr_write : Device → WriteRequest → Run (Status × Device × List Call)
  dev_mgr_write dm request =
      if not_continue request.atomicity
      then ok (status_of StatusCode.unimplemented "Not implemented", dm, [])
      else (do
        (reporter, dm', calls) ← write_updates dm status_ok no_errors request.updates
        ok (get_status reporter, dm', calls))

unfoldable pub dev_mgr_read_one : Device → Entity → ReadResponse → Run (Status × ReadResponse)
dev_mgr_read_one dm entity response = elim entity [
  | Entity.counter_entry entry ↦ counter_read dm entry response
  | _ ↦ ok (unknown_entity, response)
]

-- The loop over the entities, which an error ends.
unfoldable pub read_entities : Device → List Entity → ReadResponse → Run (Status × ReadResponse)
read_entities dm [] response = ok (status_ok, response)
read_entities dm (e ∷ es) response = do
  (status, response') ← dev_mgr_read_one dm e response
  let rest = read_entities dm es response'
  if is_ok status then rest else ok (status, response')

-- The status of the loop is dropped.
unfoldable pub dev_mgr_read : Device → ReadRequest → ReadResponse → Run (Status × ReadResponse)
dev_mgr_read dm request response = do
  (status, response') ← read_entities dm request.entities response
  ok (status_ok, response')
