-- ===== src/Server/Channel.antt =====
-- `StreamChannel` of server/pi_server.cc as a whole, against the steps of the server.
use mathlib.Core.List.{append-nil, append_assoc}
use p4runtime_grpcpp.Base.{
  map, length, ap, ◌∙◌, ◌++◌, refl, ◌==◌, if◌then◌else◌, Bool-cases, ℕ, ◌≡◌, sym, true, false, List,
  [], ◌∷◌, none, inl, inr, arith,
}
use p4runtime_grpcpp.Digests.{StreamWrite, mem}
use p4runtime_grpcpp.Messages.{Platform}
use p4runtime_grpcpp.Proto.{Status, StatusCode, status_of, status_ok}
use p4runtime_grpcpp.Server.{
  Server, StreamRequest, Arbitration, arbitration, packet, digest_ack, other, open_stream,
  close_stream, without, stream_message, stream_loop, stream_channel,
}
use p4runtime_grpcpp.Server.History.{Request, heard, quiet, request_of, history}
use p4runtime_grpcpp.Server.Reach.{Step, opens, messages, closes, Reach, here, next}
use p4runtime_grpcpp.Server.Stream.{master_reply}

Reach-trans : (p : Platform) (s t u : Server) → Reach p s t → Reach p t u → Reach p s u
Reach-trans p s t u before here = before
Reach-trans p s t u before (next {t = middle} reach step) =
    next (Reach-trans p s t middle before reach) step

-- The messages that the handler takes: those before the first arbitration for another device.
abbrev pub accepted : ℕ → List StreamRequest → List StreamRequest
accepted device_id [] = []
accepted device_id (arbitration id high low ∷ ms) =
    if device_id == id then arbitration id high low ∷ accepted device_id ms else []
accepted device_id (m ∷ ms) = m ∷ accepted device_id ms

-- The replies to them: one to each arbitration, that the stream is master.
abbrev pub replies : ℕ → List StreamRequest → List (StreamWrite Arbitration)
replies stream [] = []
replies stream (arbitration id high low ∷ ms) = master_reply stream id high low ∷ replies stream ms
replies stream (m ∷ ms) = replies stream ms

abbrev pub other_device : Status
other_device = status_of StatusCode.failed_precondition "Invalid device id"

-- The status of the call: the other arbitration ends it.
abbrev pub answer_of : ℕ → List StreamRequest → Status
answer_of device_id ms =
    if length (accepted device_id ms) == length ms then status_ok else other_device

-- What the loop does: its answer and replies, the server at its end, and the steps that lead there.
record Loops (p : Platform) (device_id : ℕ) (s : Server) (stream : ℕ) (ms : List StreamRequest)
    : Type 0 where
  at_end : Server
  run :
      stream_loop s stream ms
      ≡ (answer_of device_id ms, at_end, replies stream (accepted device_id ms))
  reach : Reach p s at_end
  history_is : history reach ≡ map (heard stream) (accepted device_id ms)
  live : at_end.live ≡ s.live

history_trans :
    (p : Platform) (s t u : Server) (before : Reach p s t) (after : Reach p t u)
    → history (Reach-trans p s t u before after) ≡ history before ++ history after
unfolding Reach-trans
history_trans p s t u before here = sym (append-nil (history before))
history_trans p s t u before (next {t = middle} reach step) =
    ap (λ (rs : List Request). rs ++ request_of step ∷ []) (history_trans p s t middle before reach)
    ∙ append_assoc (history before) (history reach) (request_of step ∷ [])

-- One message that the handler goes on after.
Loops-next :
    (p : Platform) (device_id : ℕ) (s : Server) (stream : ℕ) (m : StreamRequest)
    (ms : List StreamRequest)
    → mem stream s.live ≡ true
    → (stream_message s stream m).0 ≡ none
    → (stream_message s stream m).1.live ≡ s.live
    → accepted device_id (m ∷ ms) ≡ m ∷ accepted device_id ms
    → replies stream (m ∷ accepted device_id ms)
      ≡ (stream_message s stream m).2 ++ replies stream (accepted device_id ms)
    → Loops p device_id (stream_message s stream m).1 stream ms
    → Loops p device_id s stream (m ∷ ms)
unfolding stream_loop
Loops-next p device_id s stream m ms running goes lives takes replied rest = record {
  at_end = rest.at_end;
  run = ground (arith, goes, rest.run, takes, replied);
  reach = Reach-trans p s (stream_message s stream m).1 rest.at_end (next here step) rest.reach;
  history_is =
      history_trans p s (stream_message s stream m).1 rest.at_end (next here step) rest.reach
      ∙ ap (◌∷◌ (heard stream m)) rest.history_is
      ∙ ap (map (heard stream)) (sym takes);
  live = rest.live ∙ lives;
}
  where
    step : Step p s (stream_message s stream m).1
    step = messages stream m running goes

loop-Loops :
    (p : Platform) (device_id : ℕ) (ms : List StreamRequest) (s : Server) (stream : ℕ)
    → s.dm.device_id ≡ device_id
    → mem stream s.live ≡ true
    → Loops p device_id s stream ms
unfolding stream_loop stream_message
loop-Loops p device_id [] s stream is running = record {
  at_end = s;
  run = refl;
  reach = here;
  history_is = refl;
  live = refl;
}
loop-Loops p device_id (arbitration id high low ∷ ms) s stream is running =
    elim (Bool-cases (device_id == id)) [
      | inl same ↦
          Loops-next p device_id s stream (arbitration id high low) ms running
            (ground (arith, is, same)) (ground arith) (ground (arith, same))
            (ground (arith, is, same))
            (loop-Loops p device_id ms _ stream (ground (arith, is)) (ground (arith, running)))
      | inr differ ↦ record {
        at_end = s;
        run = ground (arith, is, differ);
        reach = here;
        history_is = ground (arith, differ);
        live = refl;
      }
    ]
loop-Loops p device_id (packet ∷ ms) s stream is running =
    Loops-next p device_id s stream packet ms running refl refl refl refl
      (loop-Loops p device_id ms s stream is running)
loop-Loops p device_id (digest_ack ∷ ms) s stream is running =
    Loops-next p device_id s stream digest_ack ms running refl refl refl refl
      (loop-Loops p device_id ms s stream is running)
loop-Loops p device_id (other ∷ ms) s stream is running =
    Loops-next p device_id s stream other ms running refl refl refl refl
      (loop-Loops p device_id ms s stream is running)

without_absent : (a : ℕ) (xs : List ℕ) → mem a xs ≡ false → without a xs ≡ xs
without_absent a [] absent = refl
without_absent a (x ∷ xs) absent = ground (arith, absent, without_absent a xs)

-- A whole call of `StreamChannel` on a new stream, with no other handler running meanwhile: it
-- takes the messages before the first arbitration for another device, answers each arbitration
-- among them that its stream is master, and ends as `OK` if these are all, and as
-- FAILED_PRECONDITION if not. The server at its end is one that steps lead to whose history is an
-- opening, these messages in order, and a closing; the streams that are there are those from
-- before.
pub stream_channel-history :
    (p : Platform) (s : Server) (stream : ℕ) (ms : List StreamRequest)
    → mem stream s.live ≡ false
    → (at_end : Server) × (stream_channel s stream ms
        ≡ (answer_of s.dm.device_id ms, at_end, replies stream (accepted s.dm.device_id ms)))
      × (at_end.live ≡ s.live)
      × (reach : Reach p s at_end) × (history reach
          ≡ quiet ∷ (map (heard stream) (accepted s.dm.device_id ms) ++ quiet ∷ []))
unfolding stream_channel
stream_channel-history p s stream ms new =
    let opened : Server = open_stream s stream in
    let loops = loop-Loops p s.dm.device_id ms opened stream refl (ground arith) in
    let running : mem stream loops.at_end.live ≡ true = ground (arith, loops.live) in
    let begin : Reach p s opened = next here (opens stream new) in
    (
      close_stream loops.at_end stream,
      ground (arith, loops.run),
      ground (arith, loops.live, without_absent stream s.live new),
      next (Reach-trans p s opened loops.at_end begin loops.reach) (closes stream running),
      ap (λ (rs : List Request). rs ++ quiet ∷ [])
          (history_trans p s opened loops.at_end begin loops.reach
            ∙ ap (◌∷◌ quiet) loops.history_is),
    )
