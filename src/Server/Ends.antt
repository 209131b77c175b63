-- ===== src/Server/Ends.antt =====
-- Which requests and digests the server of server/pi_server.cc survives.
use p4runtime_grpcpp.Base.{
  ℕ, ◌≡◌, ◌↔◌, ◌⊎◌, refl, inl, inr, true, List, [], ◌∷◌, All, Run-cases, Bool-cases, ok, ◌==◌,
  arith,
}
use p4runtime_grpcpp.Device.{Device}
use p4runtime_grpcpp.Digests.Ends.{IsDelivered, send_digest-ends_iff}
use p4runtime_grpcpp.Digests.{P4Digest, DigestList, StreamWrite, dev_mgr_send_digest}
use p4runtime_grpcpp.Manager.Ends.{
  IsTakenUpdate, sent-ends_iff, AreAnswered, read_entities-ends_iff,
}
use p4runtime_grpcpp.Manager.Write.{sent, activations, dev_mgr_write-sent}
use p4runtime_grpcpp.Manager.{not_continue, dev_mgr_write, dev_mgr_read, read_entities}
use p4runtime_grpcpp.Messages.{Platform, Call}
use p4runtime_grpcpp.Proto.{
  Status, StatusCode, status_of, status_ok, WriteRequest, ReadRequest, ReadResponse, Atomicity,
  continue_on_error, rollback_on_error, dataplane_atomic,
}
use p4runtime_grpcpp.Server.{Server, no_pipeline_config_status, write, read, empty_response}

-- A write is refused, or all its updates are taken.
abbrev pub SurvivesWrite : Platform → Server → WriteRequest → Type 0
SurvivesWrite p s request =
    (s.dm.has_p4info ≡ 0)
    ⊎ (not_continue request.atomicity ≡ true)
    ⊎ All (IsTakenUpdate p s.dm) request.updates

-- A read is refused, or each entity that it comes to is answered.
abbrev pub SurvivesRead : Server → ReadRequest → Type 0
SurvivesRead s request = (s.dm.has_p4info ≡ 0) ⊎ AreAnswered s.dm request.entities empty_response

abbrev refused : Status
refused = status_of StatusCode.unimplemented "Not implemented"

device_write-ends_iff :
    (p : Platform) (dm : Device) (request : WriteRequest) (atomicity : Atomicity)
    → request.atomicity ≡ atomicity
    → ((r : Status × Device × List Call) × (dev_mgr_write p dm request ≡ ok r))
      ↔ ((not_continue request.atomicity ≡ true) ⊎ All (IsTakenUpdate p dm) request.updates)
unfolding dev_mgr_write
device_write-ends_iff p dm request continue_on_error is =
    let sends = dev_mgr_write-sent p dm request is in
    let ends = sent-ends_iff p dm request.updates in
    (
      λ ended. elim (Run-cases (sent p dm request.updates)) [
        | inl run ↦ inr (ends.0 run)
        | inr (_, over) ↦ absurd (ground (arith, sends, over, ended.1))
      ],
      λ survives. elim survives [
        | inl atomic ↦ absurd (ground (arith, is, atomic))
        | inr taken ↦
            let (calls, run) = ends.1 taken in
            let ds = activations dm.digest_map request.updates in
            ((status_ok, record dm { digest_map = ds }, calls), ground (arith, sends, run))
      ],
    )
device_write-ends_iff p dm request rollback_on_error is =
    (λ ended. inl (ground (arith, is)), λ survives. ((refused, dm, []), rw is refl))
device_write-ends_iff p dm request dataplane_atomic is =
    (λ ended. inl (ground (arith, is)), λ survives. ((refused, dm, []), rw is refl))

write-ends_iff :
    (p : Platform) (s : Server) (request : WriteRequest)
    → ((r : Status × Server × List Call) × (write p s request ≡ ok r)) ↔ SurvivesWrite p s request
unfolding write
write-ends_iff p s request =
    let device = device_write-ends_iff p s.dm request request.atomicity refl in
    elim (Bool-cases (s.dm.has_p4info == 0)) [
      | inl bare ↦ (
        λ ended. inl (ground (arith, bare)),
        λ survives. ((no_pipeline_config_status, s, []), rw bare refl),
      )
      | inr set ↦ (
        λ ended. elim (Run-cases (dev_mgr_write p s.dm request)) [
          | inl run ↦ inr (device.0 run)
          | inr (_, over) ↦ absurd (ground (arith, set, over, ended.1))
        ],
        λ survives. elim survives [
          | inl bare ↦ absurd (ground (arith, set, bare))
          | inr rest ↦
              let ((status, dm, calls), run) = device.1 rest in
              ((status, record s { dm = dm }, calls), rw (set, run) refl)
        ],
      )
    ]

read-ends_iff :
    (s : Server) (request : ReadRequest)
    → ((r : Status × List ReadResponse) × (read s request ≡ ok r)) ↔ SurvivesRead s request
unfolding read dev_mgr_read
read-ends_iff s request =
    let entities = read_entities-ends_iff s.dm request.entities empty_response in
    elim (Bool-cases (s.dm.has_p4info == 0)) [
      | inl bare ↦ (
        λ ended. inl (ground (arith, bare)),
        λ survives. ((no_pipeline_config_status, []), rw bare refl),
      )
      | inr set ↦ (
        λ ended. elim (Run-cases (read_entities s.dm request.entities empty_response)) [
          | inl run ↦ inr (entities.0 run)
          | inr (_, over) ↦ absurd (ground (arith, set, over, ended.1))
        ],
        λ survives. elim survives [
          | inl bare ↦ absurd (ground (arith, set, bare))
          | inr rest ↦
              let ((status, response), run) = entities.1 rest in
              ((status_ok, response ∷ []), rw (set, run) refl)
        ],
      )
    ]

-- The process survives a write exactly if it is refused, or each of its insertions is taken; a read
-- exactly if it is refused, or each entity that its loop comes to is answered; and a digest of the
-- data plane exactly if nobody asked for it, or if its fields fit and the device keeps a stream
-- that is there.
pub survives_iff :
    (p : Platform) (s : Server) (writes : WriteRequest) (reads : ReadRequest) (now : ℕ)
    (digest : P4Digest)
    → (((r : Status × Server × List Call) × (write p s writes ≡ ok r)) ↔ SurvivesWrite p s writes)
      × (((r : Status × List ReadResponse) × (read s reads ≡ ok r)) ↔ SurvivesRead s reads)
      × (((r : List (StreamWrite DigestList)) × (dev_mgr_send_digest p s.live now s.dm digest
              ≡ ok r))
          ↔ IsDelivered p s.live s.dm digest)
survives_iff p s writes reads now digest = (
  write-ends_iff p s writes,
  read-ends_iff s reads,
  send_digest-ends_iff p s.live now s.dm digest,
)
