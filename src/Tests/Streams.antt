-- ===== src/Tests/Streams.antt =====
-- Digests and streams at concrete values.
use p4runtime_grpcpp.Base.{
  ℕ, ◌≡◌, ◌*◌, refl, true, false, [], ◌∷◌, some, none, codes, eq_bytes, ◌^◌, take, ok, fault,
  dangling, arith, List,
}
use p4runtime_grpcpp.Device.{Device}
use p4runtime_grpcpp.DigestMap.{Digest, find}
use p4runtime_grpcpp.Digests.{P4Digest, htonl, byte_length, mem, dev_mgr_send_digest}
use p4runtime_grpcpp.Digests.Send.{FieldsFit, members_of}
use p4runtime_grpcpp.Server.{
  Server, StreamRequest, arbitration, packet, digest_ack, stream_message, open_stream, close_stream,
  stream_channel,
}
use p4runtime_grpcpp.Server.Channel.{other_device, stream_channel-history}
use p4runtime_grpcpp.Server.History.{history, heard, quiet}
use p4runtime_grpcpp.Server.Live.{KeepsMaster, Reach-delivers}
use p4runtime_grpcpp.Server.Reach.{Reach, here, next, opens, messages, closes}
use p4runtime_grpcpp.Server.Stream.{master_reply, with_stream, send_digest-after_channel}
use p4runtime_grpcpp.Tests.{small_platform, small_device, small_server}

-- A digest of one field of 16 bits, in network byte order on a little-endian host.
abbrev small_digest : P4Digest
small_digest = record {
  field_list_name = codes "mac";
  list_size = 1;
  fields = record { value = 1 ∷ 2 ∷ 3 ∷ []; length = 16 * 2 ^ 24 } ∷ [];
}

abbrev mac_on : Digest
mac_on = record { name = codes "mac"; id = 9; active = true }

abbrev active_device : Device
active_device = record small_device { digest_map = mac_on ∷ [] }

abbrev active_server : Server
active_server = record small_server { dm = active_device }

abbrev device_on : ℕ → Device
device_on stream = record active_device { stream = some stream }

mac_on_known : find (mac_on ∷ []) (codes "mac") ≡ some mac_on
unfolding find eq_bytes
mac_on_known = refl

mac_off_known :
    find small_device.digest_map (codes "mac")
    ≡ some (record { name = codes "mac"; id = 9; active = false })
unfolding find eq_bytes
mac_off_known = refl

small_digest-FieldsFit : FieldsFit small_platform 1 small_digest.fields
unfolding byte_length htonl
small_digest-FieldsFit = (omega arith, tt)

abbrev channel_end : Server
channel_end = (stream_channel active_server 4 (arbitration 1 0 6 ∷ packet ∷ digest_ack ∷ [])).1

send_digest-after_channel_example :
    dev_mgr_send_digest small_platform channel_end.live 100 channel_end.dm small_digest
    ≡ fault dangling
send_digest-after_channel_example =
    send_digest-after_channel small_platform active_server 4 0 6 100 (packet ∷ digest_ack ∷ [])
      small_digest mac_on mac_on_known refl small_digest-FieldsFit

-- Stream 4 becomes master, and stream 5 comes and goes.
abbrev opened : Server
opened = open_stream active_server 4

abbrev mastered : Server
mastered = (stream_message opened 4 (arbitration 1 0 6)).1

mastered_is :
    ((stream_message opened 4 (arbitration 1 0 6)).0 ≡ none) × (mastered ≡ with_stream opened 4)
unfolding stream_message
mastered_is = (refl, refl)

fifth_is_new : mem 5 mastered.live ≡ false
fifth_is_new = ground (arith, mastered_is.1)

abbrev visited : Reach small_platform active_server (close_stream (open_stream mastered 5) 5)
visited =
    next
      (next (next (next here (opens 4 refl)) (messages 4 (arbitration 1 0 6) refl mastered_is.0))
        (opens 5 fifth_is_new))
      (closes 5 refl)

visited-KeepsMaster : KeepsMaster small_platform visited
visited-KeepsMaster =
    ((((tt, λ h. h), λ h. h), λ h. h), λ same. ground (arith, mastered_is.1, same))

abbrev end : Server
end = close_stream (open_stream mastered 5) 5

end_stream : end.dm.stream ≡ some 4
end_stream = ground (arith, mastered_is.1)

end_known : find end.dm.digest_map (codes "mac") ≡ some mac_on
unfolding stream_message find eq_bytes
end_known = refl

Reach-delivers_example :
    dev_mgr_send_digest small_platform end.live 100 end.dm small_digest
    ≡ ok (
        record {
          stream = 4;
          response = record {
            digest_id = 9;
            list_id = 0;
            members = members_of small_platform (take 1 small_digest.fields);
            timestamp = 100;
          };
        }
        ∷ [])
Reach-delivers_example =
    Reach-delivers small_platform active_server end visited 100 4 small_digest mac_on (λ k is. cc)
      visited-KeepsMaster end_stream end_known refl small_digest-FieldsFit

-- The second arbitration is for another device.
abbrev told : List StreamRequest
told = arbitration 1 0 6 ∷ packet ∷ arbitration 2 0 7 ∷ digest_ack ∷ []

stream_channel-history_example :
    (at_end : Server) × (stream_channel active_server 4 told
      ≡ (other_device, at_end, master_reply 4 1 0 6 ∷ []))
    × (at_end.live ≡ active_server.live)
    × (reach : Reach small_platform active_server at_end) × (history reach
        ≡ quiet ∷ heard 4 (arbitration 1 0 6) ∷ heard 4 packet ∷ quiet ∷ [])
stream_channel-history_example = stream_channel-history small_platform active_server 4 told refl
