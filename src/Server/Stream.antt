-- ===== src/Server/Stream.antt =====
-- `StreamChannel` of server/pi_server.cc: arbitration, and what the device keeps of a stream.
use p4runtime_grpcpp.Base.{
  sym, subst, ℕ, ◌≡◌, refl, ◌∙◌, true, false, List, [], ◌∷◌, none, some, fault, dangling, arith,
  ◌==◌, Bool-cases, inl, inr, ◌⊎◌,
}
use p4runtime_grpcpp.DigestMap.{Digest, find}
use p4runtime_grpcpp.Digests.Send.{FieldsFit, send_digest-dangling}
use p4runtime_grpcpp.Digests.{P4Digest, StreamWrite, mem, dev_mgr_send_digest}
use p4runtime_grpcpp.Messages.{Platform}
use p4runtime_grpcpp.Proto.{StatusCode, status_of}
use p4runtime_grpcpp.Server.{
  Server, StreamRequest, arbitration, packet, digest_ack, other, Arbitration, stream_message,
  without, open_stream, close_stream, stream_loop, stream_channel,
}

-- The device as an arbitration leaves it.
abbrev pub with_stream : Server → ℕ → Server
with_stream s stream = record s { dm = record s.dm { stream = some stream } }

abbrev pub master_reply : ℕ → ℕ → ℕ → ℕ → StreamWrite Arbitration
master_reply stream device_id high low = record {
  stream = stream;
  response = record {
    device_id = device_id;
    election_id = record { high = high; low = low };
    status = status_of StatusCode.ok "Is master";
  };
}

-- Of two streams that arbitrate for the device with any two election ids each is told that it is
-- master, and the device keeps the one that spoke last.
two_masters :
    (s : Server) (a b high_a low_a high_b low_b : ℕ)
    → let device_id = s.dm.device_id in
      let first = stream_message s a (arbitration device_id high_a low_a) in
      let second = stream_message first.1 b (arbitration device_id high_b low_b) in
      (first ≡ (none, with_stream s a, master_reply a device_id high_a low_a ∷ []))
      × (second ≡ (none, with_stream s b, master_reply b device_id high_b low_b ∷ []))
unfolding stream_message
two_masters s a b high_a low_a high_b low_b = ground arith

-- A message changes nothing but the stream of the device, and that to the stream that it came on; the
-- handler returns early only for an arbitration with another device id, which changes nothing.
pub stream_message-cases :
    (s : Server) (stream : ℕ) (m : StreamRequest)
    → ((stream_message s stream m).0 ≡ none)
        × (((stream_message s stream m).1 ≡ s)
            ⊎ ((stream_message s stream m).1 ≡ with_stream s stream))
      ⊎ ((stream_message s stream m)
          ≡ (some (status_of StatusCode.failed_precondition "Invalid device id"), s, []))
unfolding stream_message
stream_message-cases s stream (arbitration device_id high low) = ground arith
stream_message-cases s stream packet = inl (refl, inl refl)
stream_message-cases s stream digest_ack = inl (refl, inl refl)
stream_message-cases s stream other = inl (refl, inl refl)

-- What holds of the server, with either stream, holds after a message that the handler goes on after.
pub message-kept {ℓ} :
    (P : Server → Type ℓ) (s : Server) (stream : ℕ) (m : StreamRequest)
    → (stream_message s stream m).0 ≡ none
    → P s
    → P (with_stream s stream)
    → P (stream_message s stream m).1
message-kept P s stream m goes before after = elim (stream_message-cases s stream m) [
  | inl (_, inl same) ↦ subst P (sym same) before
  | inl (_, inr heard) ↦ subst P (sym heard) after
  | inr stops ↦ absurd (ground (arith, stops, goes))
]

with_stream_same : (s : Server) (stream : ℕ) → s.dm.stream ≡ some stream → with_stream s stream ≡ s
with_stream_same s stream at = ground arith

loop_accepted :
    (s : Server) (stream device_id high low : ℕ) (ms : List StreamRequest)
    → (s.dm.device_id == device_id) ≡ true
    → (stream_loop s stream (arbitration device_id high low ∷ ms)).1
      ≡ (stream_loop (with_stream s stream) stream ms).1
unfolding stream_loop stream_message
loop_accepted s stream device_id high low ms same = ground arith

loop_refused :
    (s : Server) (stream device_id high low : ℕ) (ms : List StreamRequest)
    → (s.dm.device_id == device_id) ≡ false
    → (stream_loop s stream (arbitration device_id high low ∷ ms)).1 ≡ s
unfolding stream_loop stream_message
loop_refused s stream device_id high low ms differ = ground arith

loop_keeps_server :
    (ms : List StreamRequest) (s : Server) (stream : ℕ)
    → s.dm.stream ≡ some stream
    → (stream_loop s stream ms).1 ≡ s
unfolding stream_loop stream_message
loop_keeps_server [] s stream at = refl
loop_keeps_server (arbitration device_id high low ∷ ms) s stream at =
    elim (Bool-cases (s.dm.device_id == device_id)) [
      | inl same ↦
          loop_accepted s stream device_id high low ms same
          ∙ loop_keeps_server ms (with_stream s stream) stream refl
          ∙ with_stream_same s stream at
      | inr differ ↦ loop_refused s stream device_id high low ms differ
    ]
loop_keeps_server (packet ∷ ms) s stream at = loop_keeps_server ms s stream at
loop_keeps_server (digest_ack ∷ ms) s stream at = loop_keeps_server ms s stream at
loop_keeps_server (other ∷ ms) s stream at = loop_keeps_server ms s stream at

mem-without : (a : ℕ) (xs : List ℕ) → mem a (without a xs) ≡ false
mem-without a [] = refl
mem-without a (x ∷ xs) = ground (arith, mem-without a xs)

first_arbitration :
    (s : Server) (stream high low : ℕ) (rest : List StreamRequest)
    → (stream_loop s stream (arbitration s.dm.device_id high low ∷ rest)).1 ≡ with_stream s stream
first_arbitration s stream high low rest =
    loop_accepted s stream s.dm.device_id high low rest (ground arith)
    ∙ loop_keeps_server rest (with_stream s stream) stream refl

-- A stream that opens with an arbitration for the device: whatever else comes on it, and in whatever
-- way its handler returns, the server is as before, but that the device keeps the pointer to the
-- stream, and the stream is gone.
stream_channel-dangles :
    (s : Server) (stream high low : ℕ) (rest : List StreamRequest)
    → let after = (stream_channel s stream (arbitration s.dm.device_id high low ∷ rest)).1 in
      (after ≡ with_stream (close_stream (open_stream s stream) stream) stream)
      × (mem stream after.live ≡ false)
unfolding stream_channel
stream_channel-dangles s stream high low rest =
    let loop = first_arbitration (open_stream s stream) stream high low rest in
    rw loop (refl, mem-without stream (stream ∷ s.live))

-- After a stream that opened with an arbitration for the device has ended, a digest that is
-- switched on, and whose fields fit, is written to a stream that is gone.
pub send_digest-after_channel :
    (p : Platform) (s : Server) (stream high low now : ℕ) (rest : List StreamRequest)
    (digest : P4Digest) (d : Digest)
    → find s.dm.digest_map digest.field_list_name ≡ some d
    → d.active ≡ true
    → FieldsFit p digest.list_size digest.fields
    → let after = (stream_channel s stream (arbitration s.dm.device_id high low ∷ rest)).1 in
      dev_mgr_send_digest p after.live now after.dm digest ≡ fault dangling
send_digest-after_channel p s stream high low now rest digest d known on fit =
    let after : Server = with_stream (close_stream (open_stream s stream) stream) stream in
    rw (stream_channel-dangles s stream high low rest).0 (
      send_digest-dangling p after.live now after.dm digest d known on fit stream refl
        (mem-without stream (stream ∷ s.live)))
