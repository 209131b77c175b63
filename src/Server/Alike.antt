-- ===== src/Server/Alike.antt =====
-- server/pi_server.cc: what the requests see of the id map.
use p4runtime_grpcpp.Base.{◌≡◌, refl, ap, List, [], ◌∷◌, ok, ◌>>=◌, Run-cases, inl, inr, arith}
use p4runtime_grpcpp.Counter.{counter_read}
use p4runtime_grpcpp.Device.{Device}
use p4runtime_grpcpp.IdMap.View.{view, lookup}
use p4runtime_grpcpp.IdMap.{IdMap, get_element}
use p4runtime_grpcpp.Manager.Write.{sent_by, sent, dev_mgr_write-sent}
use p4runtime_grpcpp.Manager.{dev_mgr_write, dev_mgr_read_one, read_entities, dev_mgr_read}
use p4runtime_grpcpp.Messages.{Platform, Call}
use p4runtime_grpcpp.Proto.{
  Status, Entity, CounterEntry, UpdateType, Update, WriteRequest, ReadRequest, ReadResponse,
  Atomicity, continue_on_error, rollback_on_error, dataplane_atomic,
}
use p4runtime_grpcpp.Server.{Server, write, read, empty_response}
use p4runtime_grpcpp.Table.Lookups.{table_insert-view}

-- The device, and the server, with another id map.
abbrev pub device_with : Device → IdMap → Device
device_with dm m = record dm { id_map = m }

abbrev pub server_with : Server → IdMap → Server
server_with s m = record s { dm = device_with s.dm m }

-- Two devices with the same callbacks whose id maps no lookup tells apart.
module _ (p : Platform) (dm dm' : Device) (same : view dm.id_map ≡ view dm'.id_map)
    (cb : dm.cb ≡ dm'.cb) where
  sent_by-view :
      (type : UpdateType) (entity : Entity)
      → let u : Update = record { type = type; entity = entity } in sent_by p dm u ≡ sent_by p dm' u
  sent_by-view UpdateType.insert (Entity.table_entry entry) =
      rw (table_insert-view p dm dm' entry same cb) refl
  sent_by-view type (Entity.table_entry entry) = ground arith
  sent_by-view type entity = ground arith

  pub sent-view : (us : List Update) → sent p dm us ≡ sent p dm' us
  sent-view [] = refl
  sent-view (u ∷ us) = rw (sent_by-view u.type u.entity, sent-view us) refl

module _ (dm dm' : Device) (same : view dm.id_map ≡ view dm'.id_map)
    (counters : dm.get_counter_by_name ≡ dm'.get_counter_by_name) where
  counter_read-view :
      (entry : CounterEntry) (response : ReadResponse)
      → counter_read dm entry response ≡ counter_read dm' entry response
  unfolding counter_read lookup
  counter_read-view entry response =
      let find : get_element dm.id_map entry.counter_id ≡ get_element dm'.id_map entry.counter_id =
        ap (lookup entry.counter_id) same in
      rw (find, counters) refl

  read_one-view :
      (entity : Entity) (response : ReadResponse)
      → dev_mgr_read_one dm entity response ≡ dev_mgr_read_one dm' entity response
  unfolding dev_mgr_read_one
  read_one-view (Entity.counter_entry entry) response = counter_read-view entry response
  read_one-view entity response = ground arith

  pub read_entities-view :
      (es : List Entity) (response : ReadResponse)
      → read_entities dm es response ≡ read_entities dm' es response
  unfolding read_entities
  read_entities-view [] response = refl
  read_entities-view (e ∷ es) response = elim (Run-cases (dev_mgr_read_one dm e response)) [
    | inl ((status, response'), run) ↦
        ground (arith, read_one-view e response, run, read_entities-view es response')
    | inr (_, run) ↦ ground (arith, read_one-view e response, run)
  ]

module _ (p : Platform) (dm : Device) (m : IdMap) (same : view dm.id_map ≡ view m) where
  write_as :
      (request : WriteRequest) (atomicity : Atomicity)
      → request.atomicity ≡ atomicity
      → dev_mgr_write p (device_with dm m) request ≡ (
          dev_mgr_write p dm request >>= λ (r : Status × Device × List Call).
          ok (r.0, device_with r.1 m, r.2))
  unfolding dev_mgr_write
  write_as request continue_on_error is =
      let here = dev_mgr_write-sent p dm request is in
      let there = dev_mgr_write-sent p (device_with dm m) request is in
      elim (Run-cases (sent p dm request.updates)) [
        | inl (_, run) ↦
            ground
              (arith, here, there, sent-view p dm (device_with dm m) same refl request.updates, run)
        | inr (_, run) ↦
            ground
              (arith, here, there, sent-view p dm (device_with dm m) same refl request.updates, run)
      ]
  write_as request rollback_on_error is = ground (arith, is)
  write_as request dataplane_atomic is = ground (arith, is)

-- Of the id map a request sees only what lookups tell: a server whose map is replaced by one that
-- no lookup tells apart answers each write and each read as before, sends the data plane the same,
-- and ends a write as before, but for the map, which stays the one that it was given.
requests-view :
    (p : Platform) (s : Server) (m : IdMap) (writes : WriteRequest) (reads : ReadRequest)
    → view s.dm.id_map ≡ view m
    → (write p (server_with s m) writes ≡ (
        write p s writes >>= λ (r : Status × Server × List Call). ok (r.0, server_with r.1 m, r.2)))
      × (read (server_with s m) reads ≡ read s reads)
unfolding write read dev_mgr_read
requests-view p s m writes reads same =
    let written = write_as p s.dm m same writes writes.atomicity refl in
    let entities =
      read_entities-view s.dm (device_with s.dm m) same refl reads.entities empty_response in
    (
      elim (Run-cases (dev_mgr_write p s.dm writes)) [
        | inl (_, run) ↦ ground (arith, written, run)
        | inr (_, run) ↦ ground (arith, written, run)
      ],
      ground (arith, entities),
    )
