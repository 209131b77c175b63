-- ===== src/Server/Subscribes.antt =====
-- server/pi_server.cc from a configuration over an arbitration and a subscription to a digest on the
-- stream.
use p4runtime_grpcpp.Base.{
  ℕ, Bytes, ◌≡◌, refl, sym, ap, ◌∙◌, subst, true, List, [], ◌∷◌, some, take, ok, >>=-eq-ok, arith,
}
use p4runtime_grpcpp.ConfigFile.{Disk}
use p4runtime_grpcpp.Device.{Device}
use p4runtime_grpcpp.DigestMap.Laws.{UniqueIds, find-activate}
use p4runtime_grpcpp.DigestMap.{Digest, find, activate}
use p4runtime_grpcpp.Digests.Send.{
  FieldsFit, members_of, subscription, dev_mgr_write-subscription, send_digest-active,
}
use p4runtime_grpcpp.Digests.{P4Digest, StreamWrite, DigestList, mem, dev_mgr_send_digest}
use p4runtime_grpcpp.Messages.{Platform}
use p4runtime_grpcpp.Pipeline.AddDigests.{last_named, HasUniqueIds, add_digests-UniqueIds}
use p4runtime_grpcpp.Pipeline.Set.{set_config-Configured}
use p4runtime_grpcpp.Pipeline.{takes_config, dev_mgr_set_pipeline_config}
use p4runtime_grpcpp.Proto.{Status, status_ok, PipelineConfig, p4info_of, SetAction}
use p4runtime_grpcpp.Server.Stream.{with_stream}
use p4runtime_grpcpp.Server.{Server, arbitration, open_stream, stream_message, set_config, write}

-- The server after a stream opened and arbitrated for the device.
abbrev pub arbitrated : Server → ℕ → ℕ → ℕ → Server
arbitrated s stream high low =
    (stream_message (open_stream s stream) stream (arbitration s.dm.device_id high low)).1

arbitrated-with_stream :
    (s : Server) (stream high low : ℕ)
    → arbitrated s stream high low ≡ with_stream (open_stream s stream) stream
unfolding stream_message
arbitrated-with_stream s stream high low = ground arith

-- The server after the digest with the id was asked for.
abbrev pub subscribed : Server → ℕ → Server
subscribed s digest_id = record s {
  dm = record s.dm { digest_map = activate s.dm.digest_map digest_id };
}

pub write-subscribed :
    (p : Platform) (s : Server) (device_id digest_id : ℕ)
    → s.dm.has_p4info ≡ 1
    → UniqueIds s.dm.digest_map
    → write p s (subscription device_id digest_id) ≡ ok (status_ok, subscribed s digest_id, [])
unfolding write
write-subscribed p s device_id digest_id set unique =
    ground (arith, set, (dev_mgr_write-subscription p s.dm device_id digest_id unique).0)

-- The message that tells the controller of a digest.
abbrev pub delivered : Platform → ℕ → ℕ → P4Digest → ℕ → List (StreamWrite DigestList)
delivered p stream now digest digest_id =
    record {
      stream = stream;
      response = record {
        digest_id = digest_id;
        list_id = 0;
        members = members_of p (take digest.list_size digest.fields);
        timestamp = now;
      };
    }
    ∷ []

switched_on :
    (s : Server) (name : Bytes) (d : Digest)
    → UniqueIds s.dm.digest_map
    → find s.dm.digest_map name ≡ some d
    → find (activate s.dm.digest_map d.id) name ≡ some (record d { active = true })
switched_on s name d unique known =
    find-activate s.dm.digest_map d.id name unique ∙ ground (arith, known)

-- A subscription on a server whose stream is there, and a digest after it.
master_delivers :
    (p : Platform) (s : Server) (write_id stream now : ℕ) (digest : P4Digest) (d : Digest)
    → s.dm.has_p4info ≡ 1
    → UniqueIds s.dm.digest_map
    → find s.dm.digest_map digest.field_list_name ≡ some d
    → s.dm.stream ≡ some stream
    → mem stream s.live ≡ true
    → FieldsFit p digest.list_size digest.fields
    → (write p s (subscription write_id d.id) ≡ ok (status_ok, subscribed s d.id, []))
      × (dev_mgr_send_digest p (subscribed s d.id).live now (subscribed s d.id).dm digest
          ≡ ok (delivered p stream now digest d.id))
master_delivers p s write_id stream now digest d set unique known at there fit = (
  write-subscribed p s write_id d.id set unique,
  send_digest-active p s.live now (subscribed s d.id).dm digest (record d { active = true })
      (switched_on s digest.field_list_name d unique known) refl fit stream at there,
)

-- After a configuration that was taken, whose digests have different ids, and after a new stream
-- that arbitrated for the device: a write that asks for a digest by its id is answered `OK`, and a
-- digest of that name whose fields fit then goes to that stream, under its id.
pub subscription-delivers :
    (p : Platform) (disk : Disk) (s s' : Server) (config_id write_id stream high low now : ℕ)
    (action : SetAction) (config : PipelineConfig) (status : Status) (digest : P4Digest)
    (d : Digest)
    → takes_config action ≡ true
    → set_config disk s config_id action config ≡ ok (status, s')
    → HasUniqueIds (p4info_of config).digests
    → last_named (p4info_of config).digests digest.field_list_name ≡ some d
    → FieldsFit p digest.list_size digest.fields
    → let master = arbitrated s' stream high low in
      (write p master (subscription write_id d.id) ≡ ok (status_ok, subscribed master d.id, []))
      × (dev_mgr_send_digest p (subscribed master d.id).live now (subscribed master d.id).dm digest
          ≡ ok (delivered p stream now digest d.id))
unfolding set_config
subscription-delivers p disk s s' config_id write_id stream high low now action config status digest
      d takes run unique named fit =
    let set : Device = record s.dm { device_id = config_id } in
    let (r, taken, is) =
      >>=-eq-ok (dev_mgr_set_pipeline_config disk set s.saved action config) _ run in
    let made = set_config-Configured disk set s.saved action config takes r.0 r.1 r.2 taken in
    let e : r.1 ≡ s'.dm = ground arith in
    let digests_are : s'.dm.digest_map ≡ r.1.digest_map =
      sym (ap (λ (x : Device). x.digest_map) e) in
    let set' : s'.dm.has_p4info ≡ 1 = sym (ap (λ (x : Device). x.has_p4info) e) ∙ made.has_p4info in
    let unique' : UniqueIds s'.dm.digest_map =
      subst UniqueIds (sym (digests_are ∙ made.digest_map))
        (add_digests-UniqueIds (p4info_of config).digests unique) in
    let known : find s'.dm.digest_map digest.field_list_name ≡ some d =
      ap (λ ds. find ds digest.field_list_name) digests_are
      ∙ made.digests digest.field_list_name
      ∙ named in
    rw (arbitrated-with_stream s' stream high low) (
      master_delivers p (with_stream (open_stream s' stream) stream) write_id stream now digest d
        set' unique' known refl (ground arith) fit)
