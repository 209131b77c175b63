-- ===== src/Server/Live.antt =====
-- server/pi_server.cc: as long as which handlers run the stream that the device keeps is there.
use p4runtime_grpcpp.Base.{
  ℕ, ◌≡◌, ◌≢◌, refl, sym, ap, ◌∙◌, true, List, [], ◌∷◌, some, ok, >>=-eq-ok, take, Bool-cases, inl,
  inr, arith,
}
use p4runtime_grpcpp.ConfigFile.{Disk}
use p4runtime_grpcpp.Device.{Device}
use p4runtime_grpcpp.DigestMap.{Digest, find}
use p4runtime_grpcpp.Digests.Send.{FieldsFit, members_of, send_digest-active}
use p4runtime_grpcpp.Digests.{P4Digest, mem, dev_mgr_send_digest}
use p4runtime_grpcpp.Messages.{Platform}
use p4runtime_grpcpp.Pipeline.Set.{set_config_ignored, set_config-Configured}
use p4runtime_grpcpp.Pipeline.{dev_mgr_set_pipeline_config, takes_config}
use p4runtime_grpcpp.Proto.{Status, SetAction, PipelineConfig, ResponseType}
use p4runtime_grpcpp.Server.Reach.{
  Step, writes, sets, gets, reads, digests, opens, messages, closes, Reach, here, next,
}
use p4runtime_grpcpp.Server.Written.{write-kept}
use p4runtime_grpcpp.Server.Stream.{message-kept}
use p4runtime_grpcpp.Server.{Server, set_config, get_config, without}

-- The stream that the device keeps, if any, is one whose handler runs.
abbrev pub IsLive : Server → Type 0
IsLive s = (k : ℕ) → s.dm.stream ≡ some k → mem k s.live ≡ true

module _ (p : Platform) where
  -- The step is the return of the handler whose stream the device keeps.
  abbrev pub Hangs : {s s' : Server} → Step p s s' → Type 0
  Hangs {s} (closes stream live) = s.dm.stream ≡ some stream
  Hangs _ = ⊥

  -- No handler returned while the device kept its stream.
  abbrev pub KeepsMaster : {s s' : Server} → Reach p s s' → Type 0
  KeepsMaster here = Unit
  KeepsMaster (next reach step) = KeepsMaster reach × ¬ Hangs step

mem-without_other : (k j : ℕ) (live : List ℕ) → k ≢ j → mem k (without j live) ≡ mem k live
mem-without_other k j [] other = refl
mem-without_other k j (x ∷ xs) other = ground (arith, mem-without_other k j xs other)

same_stream : (s s' : Server) → IsLive s → s'.dm.stream ≡ s.dm.stream → s'.live ≡ s.live → IsLive s'
same_stream s s' live stream streams k is = ap (mem k) streams ∙ live k (sym stream ∙ is)

set_config-stream :
    (disk : Disk) (s s' : Server) (device_id : ℕ) (action : SetAction) (config : PipelineConfig)
    (status : Status)
    → set_config disk s device_id action config ≡ ok (status, s')
    → (s'.dm.stream ≡ s.dm.stream) × (s'.live ≡ s.live)
unfolding set_config
set_config-stream disk s s' device_id action config status run =
    let set : Device = record s.dm { device_id = device_id } in
    let (r, taken, is) =
      >>=-eq-ok (dev_mgr_set_pipeline_config disk set s.saved action config) _ run in
    elim (Bool-cases (takes_config action)) [
      | inl takes ↦
          let kept = set_config-Configured disk set s.saved action config takes r.0 r.1 r.2 taken in
          ground (arith, kept.stream, is)
      | inr skipped ↦
          ground (arith, is, set_config_ignored disk set s.saved action config skipped, taken)
    ]

get_config-same_stream :
    (disk : Disk) (s : Server) (type : ResponseType)
    → ((get_config disk s type).2.dm.stream ≡ s.dm.stream)
      × ((get_config disk s type).2.live ≡ s.live)
unfolding get_config
get_config-same_stream disk s type = ground arith

Step-IsLive :
    (p : Platform) (s s' : Server) (step : Step p s s') → IsLive s → ¬ Hangs p step → IsLive s'
Step-IsLive p s s' (writes request status s'' calls run) live goes_on =
    write-kept IsLive p s s' request status calls run live live
Step-IsLive p s s' (sets disk device_id action config status s'' run) live goes_on =
    let (stream, streams) = set_config-stream disk s s' device_id action config status run in
    same_stream s s' live stream streams
Step-IsLive p s s' (gets disk type) live goes_on =
    let (stream, streams) = get_config-same_stream disk s type in
    same_stream s (get_config disk s type).2 live stream streams
Step-IsLive p s s' (reads request status responses run) live goes_on = live
Step-IsLive p s s' (digests now digest written run) live goes_on = live
Step-IsLive p s s' (opens stream new) live goes_on = λ k is. ground (arith, live k is)
Step-IsLive p s s' (messages stream m running goes) live goes_on =
    message-kept IsLive s stream m goes live (λ k is. ground (arith, running, is))
Step-IsLive p s s' (closes stream running) live goes_on =
    λ k is. mem-without_other k stream s.live (λ same. goes_on (is ∙ ap some same)) ∙ live k is

Reach-IsLive :
    (p : Platform) (s s' : Server) (reach : Reach p s s')
    → IsLive s
    → KeepsMaster p reach
    → IsLive s'
Reach-IsLive p s s' here live keeps = live
Reach-IsLive p s s' (next {t} {u} reach step) live keeps =
    Step-IsLive p t s' step (Reach-IsLive p s t reach live keeps.0) keeps.1

-- From a server whose stream, if it has one, is there, after whatever requests and streams of which
-- none ends the handler of the stream that the device keeps at that moment: a digest that somebody
-- asked for, with fields that fit, goes to the stream that the device keeps, if it keeps one.
pub Reach-delivers :
    (p : Platform) (s s' : Server) (reach : Reach p s s') (now stream : ℕ) (digest : P4Digest)
    (d : Digest)
    → IsLive s
    → KeepsMaster p reach
    → s'.dm.stream ≡ some stream
    → find s'.dm.digest_map digest.field_list_name ≡ some d
    → d.active ≡ true
    → FieldsFit p digest.list_size digest.fields
    → dev_mgr_send_digest p s'.live now s'.dm digest
      ≡ ok (
          record {
            stream = stream;
            response = record {
              digest_id = d.id;
              list_id = 0;
              members = members_of p (take digest.list_size digest.fields);
              timestamp = now;
            };
          }
          ∷ [])
Reach-delivers p s s' reach now stream digest d live keeps kept known on fit =
    send_digest-active p s'.live now s'.dm digest d known on fit stream kept
      (Reach-IsLive p s s' reach live keeps stream kept)
