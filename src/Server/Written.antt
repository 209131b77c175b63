-- ===== src/Server/Written.antt =====
-- What `Write` of server/pi_server.cc leaves of the server.
use p4runtime_grpcpp.Base.{
  subst, ◌≡◌, refl, true, false, List, [], ◌∷◌, ok, ◌>>=◌, Run-cases, arith, inl, inr, ◌⊎◌, ◌==◌,
  Bool-cases,
}
use p4runtime_grpcpp.Device.{Device}
use p4runtime_grpcpp.DigestMap.Laws.{IsOrdered, activate-IsOrdered}
use p4runtime_grpcpp.DigestMap.{DigestMap, activate}
use p4runtime_grpcpp.Manager.Write.{activations, sent, dev_mgr_write-sent}
use p4runtime_grpcpp.Manager.{dev_mgr_write, not_continue}
use p4runtime_grpcpp.Messages.{Platform, Call}
use p4runtime_grpcpp.Proto.{
  Status, StatusCode, status_of, status_ok, Entity, Update, WriteRequest, Atomicity,
  continue_on_error, rollback_on_error, dataplane_atomic,
}
use p4runtime_grpcpp.Server.{Server, write}

entity-IsOrdered :
    (u : Update) (entity : Entity) (us : List Update) (ds : DigestMap)
    → IsOrdered ds
    → ((ds' : DigestMap) → IsOrdered ds' → IsOrdered (activations ds' us))
    → IsOrdered (activations ds (record u { entity = entity } ∷ us))
entity-IsOrdered u (Entity.table_entry entry) us ds o ih = ih ds o
entity-IsOrdered u (Entity.counter_entry entry) us ds o ih = ih ds o
entity-IsOrdered u Entity.direct_counter_entry us ds o ih = ih ds o
entity-IsOrdered u (Entity.digest_entry digest_id) us ds o ih =
    ih (activate ds digest_id) (activate-IsOrdered ds digest_id o)
entity-IsOrdered u Entity.other us ds o ih = ih ds o

pub activations-IsOrdered :
    (us : List Update) (ds : DigestMap) → IsOrdered ds → IsOrdered (activations ds us)
activations-IsOrdered [] ds o = o
activations-IsOrdered (u ∷ us) ds o =
    entity-IsOrdered u u.entity us ds o (λ ds' o'. activations-IsOrdered us ds' o')

-- The device after the updates of a request.
abbrev pub activated : Server → List Update → Server
activated s us = record s { dm = record s.dm { digest_map = activations s.dm.digest_map us } }

dev_mgr_write-cases :
    (p : Platform) (dm : Device) (request : WriteRequest)
    → (dev_mgr_write p dm request ≡ (
        sent p dm request.updates >>= λ (calls : List Call).
        ok
          (status_ok, record dm { digest_map = activations dm.digest_map request.updates }, calls)))
      ⊎ (dev_mgr_write p dm request
          ≡ ok (status_of StatusCode.unimplemented "Not implemented", dm, []))
unfolding dev_mgr_write
dev_mgr_write-cases p dm request = by_atomicity request.atomicity refl
  where
    by_atomicity :
        (a : Atomicity)
        → request.atomicity ≡ a
        → (dev_mgr_write p dm request ≡ (
            sent p dm request.updates >>= λ (calls : List Call). ok (
              status_ok,
              record dm { digest_map = activations dm.digest_map request.updates },
              calls,
            )))
          ⊎ (dev_mgr_write p dm request
              ≡ ok (status_of StatusCode.unimplemented "Not implemented", dm, []))
    by_atomicity continue_on_error h = inl (dev_mgr_write-sent p dm request h)
    by_atomicity rollback_on_error h = inr (rw h refl)
    by_atomicity dataplane_atomic h = inr (rw h refl)

-- A write changes nothing but which digests are switched on.
write-activated :
    (p : Platform) (s s' : Server) (request : WriteRequest) (status : Status) (calls : List Call)
    → write p s request ≡ ok (status, s', calls)
    → (s ≡ s') ⊎ (activated s request.updates ≡ s')
unfolding write
write-activated p s s' request status calls run = elim (Bool-cases (s.dm.has_p4info == 0)) [
  | inl bare ↦ inl (ground (arith, bare))
  | inr set ↦ elim (dev_mgr_write-cases p s.dm request) [
    | inl sends ↦ elim (Run-cases (sent p s.dm request.updates)) [
      | inl (_, returns) ↦ inr (ground (arith, set, sends, returns))
      | inr (_, faults) ↦ absurd (ground (arith, set, sends, faults))
    ]
    | inr refused ↦ inl (ground (arith, set, refused))
  ]
]

-- What holds of the server, with any digests switched on, holds after a write.
pub write-kept {ℓ} :
    (P : Server → Type ℓ) (p : Platform) (s s' : Server) (request : WriteRequest) (status : Status)
    (calls : List Call)
    → write p s request ≡ ok (status, s', calls)
    → P s
    → P (activated s request.updates)
    → P s'
write-kept P p s s' request status calls run before after =
    elim (write-activated p s s' request status calls run) [
      | inl same ↦ subst P same before
      | inr is ↦ subst P is after
    ]

-- A write that is listened to leaves the digests that it asks for switched on, and nothing else.
pub write_heard :
    (p : Platform) (s s' : Server) (request : WriteRequest) (status : Status) (calls : List Call)
    → s.dm.has_p4info ≡ 1
    → not_continue request.atomicity ≡ false
    → write p s request ≡ ok (status, s', calls)
    → activated s request.updates ≡ s'
unfolding write
write_heard p s s' request status calls set goes_on run =
    let sends = dev_mgr_write-sent p s.dm request (goes_on-eq request.atomicity goes_on) in
    elim (Run-cases (sent p s.dm request.updates)) [
      | inl (_, returns) ↦ ground (arith, set, sends, returns)
      | inr (_, faults) ↦ absurd (ground (arith, set, sends, faults))
    ]
  where
    goes_on-eq : (a : Atomicity) → not_continue a ≡ false → a ≡ continue_on_error
    goes_on-eq continue_on_error h = refl
    goes_on-eq rollback_on_error h = cc
    goes_on-eq dataplane_atomic h = cc

-- A write that is not listened to changes nothing.
pub write_refused :
    (p : Platform) (s s' : Server) (request : WriteRequest) (status : Status) (calls : List Call)
    → (s.dm.has_p4info ≡ 0) ⊎ (not_continue request.atomicity ≡ true)
    → write p s request ≡ ok (status, s', calls)
    → s ≡ s'
unfolding write dev_mgr_write
write_refused p s s' request status calls (inl bare) run = ground (arith, bare)
write_refused p s s' request status calls (inr atomic) run =
    elim (Bool-cases (s.dm.has_p4info == 0)) [
      | inl bare ↦ ground (arith, bare)
      | inr set ↦ ground (arith, set, atomic)
    ]
