-- ===== src/Server/Reach.antt =====
-- The server as a state machine: whatever requests come, on whatever streams, in whatever order.
use p4runtime_grpcpp.Base.{
  ℕ, ◌≡◌, refl, sym, subst, ◌∙◌, true, false, List, none, some, ok, >>=-eq-ok, arith, inl, inr,
  ◌==◌, Bool-cases,
}
use p4runtime_grpcpp.ConfigFile.{Disk}
use p4runtime_grpcpp.Device.{Device, CounterRead, dev_mgr_init, dev_mgr_init_with_t4p4s}
use p4runtime_grpcpp.DigestMap.Laws.{IsOrdered}
use p4runtime_grpcpp.Digests.{P4Digest, DigestList, StreamWrite, mem, dev_mgr_send_digest}
use p4runtime_grpcpp.IdMap.Lookup.{init_map-IsProbed}
use p4runtime_grpcpp.IdMap.{Element, get_element, init_map}
use p4runtime_grpcpp.Messages.{Platform, Call}
use p4runtime_grpcpp.Pipeline.Grow.{IsSound}
use p4runtime_grpcpp.Pipeline.Keeps.{set_config-Keeps}
use p4runtime_grpcpp.Pipeline.{dev_mgr_set_pipeline_config}
use p4runtime_grpcpp.Proto.{
  Status, Update, WriteRequest, ReadRequest, ReadResponse, SetAction, PipelineConfig, ResponseType,
}
use p4runtime_grpcpp.Server.Stream.{message-kept, with_stream}
use p4runtime_grpcpp.Server.Written.{activations-IsOrdered, activated, write-kept}
use p4runtime_grpcpp.Server.{
  Server, StreamRequest, write, read, set_config, get_config, stream_message, open_stream,
  close_stream,
}

-- One step of the server. A request that faults has no step: the process is gone.
pub data Step (p : Platform) (s : Server) : Server → Type 0 where
  writes :
      (request : WriteRequest) (status : Status) (s' : Server) (calls : List Call)
      → write p s request ≡ ok (status, s', calls)
      → Step p s s'
  sets :
      (disk : Disk) (device_id : ℕ) (action : SetAction) (config : PipelineConfig) (status : Status)
      (s' : Server)
      → set_config disk s device_id action config ≡ ok (status, s')
      → Step p s s'
  gets : (disk : Disk) (type : ResponseType) → Step p s (get_config disk s type).2
  reads :
      (request : ReadRequest) (status : Status) (responses : List ReadResponse)
      → read s request ≡ ok (status, responses)
      → Step p s s
  digests :
      (now : ℕ) (digest : P4Digest) (written : List (StreamWrite DigestList))
      → dev_mgr_send_digest p s.live now s.dm digest ≡ ok written
      → Step p s s
  opens : (stream : ℕ) → mem stream s.live ≡ false → Step p s (open_stream s stream)
  messages :
      (stream : ℕ) (m : StreamRequest)
      → mem stream s.live ≡ true
      → (stream_message s stream m).0 ≡ none
      → Step p s (stream_message s stream m).1
  closes : (stream : ℕ) → mem stream s.live ≡ true → Step p s (close_stream s stream)

pub data Reach (p : Platform) (s : Server) : Server → Type 0 where
  here : Reach p s s
  next : {t u : Server} → Reach p s t → Step p t u → Reach p s u

-- The id map is sound, and the digests are in order.
pub record IsValid (s : Server) : Type 0 where
  pub sound : IsSound s.dm.id_map
  pub ordered : IsOrdered s.dm.digest_map

-- What a step may do: a valid server stays valid, no id changes its element, and a server that is
-- configured stays so.
pub record Progress (s s' : Server) : Type 0 where
  pub valid : IsValid s'
  pub keeps :
      (q : ℕ) (e : Element)
      → get_element s.dm.id_map q ≡ some e
      → get_element s'.dm.id_map q ≡ some e
  pub configured : s.dm.has_p4info ≡ 1 → s'.dm.has_p4info ≡ 1

Progress-refl : (s : Server) → IsValid s → Progress s s
Progress-refl s v = record { valid = v; keeps = λ q e h. h; configured = λ h. h }

Progress-trans : (s t u : Server) → Progress s t → Progress t u → Progress s u
Progress-trans s t u f g = record {
  valid = g.valid;
  keeps = λ q e h. g.keeps q e (f.keeps q e h);
  configured = λ h. g.configured (f.configured h);
}

-- A step that leaves the device's map, digests and flag alone.
Progress-same :
    (s s' : Server)
    → IsValid s
    → s'.dm.id_map ≡ s.dm.id_map
    → s'.dm.digest_map ≡ s.dm.digest_map
    → s'.dm.has_p4info ≡ s.dm.has_p4info
    → Progress s s'
Progress-same s s' v e₁ e₂ e₃ = record {
  valid = record {
    sound = subst IsSound (sym e₁) v.sound;
    ordered = subst IsOrdered (sym e₂) v.ordered;
  };
  keeps = λ q e h. subst (λ m. get_element m q ≡ some e) (sym e₁) h;
  configured = λ h. e₃ ∙ h;
}

activated-Progress : (s : Server) (us : List Update) → IsValid s → Progress s (activated s us)
activated-Progress s us v = record {
  valid = record { sound = v.sound; ordered = activations-IsOrdered us s.dm.digest_map v.ordered };
  keeps = λ q e h. h;
  configured = λ h. h;
}

set_config-Progress :
    (disk : Disk) (s s' : Server) (device_id : ℕ) (action : SetAction) (config : PipelineConfig)
    (status : Status)
    → IsValid s
    → set_config disk s device_id action config ≡ ok (status, s')
    → Progress s s'
unfolding set_config
set_config-Progress disk s s' device_id action config status v run =
    let set : Device = record s.dm { device_id = device_id } in
    let (r, taken, is) =
      >>=-eq-ok (dev_mgr_set_pipeline_config disk set s.saved action config) _ run in
    let kept =
      set_config-Keeps disk set r.1 s.saved r.2 action config r.0 v.sound v.ordered taken in
    let made : Progress s (record s { dm = r.1; saved = r.2 }) = record {
      valid = record { sound = kept.grows.sound; ordered = kept.ordered };
      keeps = kept.grows.keeps;
      configured = kept.configured;
    } in
    subst (Progress s) (ground arith) made

get_config-Progress :
    (disk : Disk) (s : Server) (type : ResponseType)
    → IsValid s
    → Progress s (get_config disk s type).2
unfolding get_config
get_config-Progress disk s type v = elim (Bool-cases (s.dm.has_p4info == 0)) [
  | inl bare ↦ rw bare (Progress-refl s v)
  | inr set ↦ rw set (Progress-same s _ v refl refl refl)
]

Step-Progress : (p : Platform) (s s' : Server) → IsValid s → Step p s s' → Progress s s'
Step-Progress p s s' v (writes request status s'' calls run) =
    write-kept (Progress s) p s s' request status calls run (Progress-refl s v)
      (activated-Progress s request.updates v)
Step-Progress p s s' v (sets disk device_id action config status s'' run) =
    set_config-Progress disk s s' device_id action config status v run
Step-Progress p s s' v (gets disk type) = get_config-Progress disk s type v
Step-Progress p s s' v (reads request status responses run) = Progress-refl s v
Step-Progress p s s' v (digests now digest written run) = Progress-refl s v
Step-Progress p s s' v (opens stream new) = Progress-same s _ v refl refl refl
Step-Progress p s s' v (messages stream m live goes) =
    message-kept (Progress s) s stream m goes (Progress-refl s v)
      (Progress-same s (with_stream s stream) v refl refl refl)
Step-Progress p s s' v (closes stream live) = Progress-same s _ v refl refl refl

-- In a server that may be reached from a valid one, whatever requests, streams and digests led there, the id map
-- is sound and the digests are in order; every id that was known is still found with the element that
-- it had, and the server is configured if it was.
pub Reach-Progress : (p : Platform) (s s' : Server) → IsValid s → Reach p s s' → Progress s s'
Reach-Progress p s s' v here = Progress-refl s v
Reach-Progress p s s' v (next {t} {u} reach step) =
    let before = Reach-Progress p s t v reach in
    Progress-trans s t s' before (Step-Progress p t s' before.valid step)

pub init_map-IsSound : IsSound init_map
unfolding init_map
init_map-IsSound = record { probed = init_map-IsProbed; fits = λ j e h. cc }

-- The server at its start is valid, and not configured.
pub started-IsValid :
    (s : Server) (cb : ℕ) (counters : CounterRead) (device_id : ℕ)
    → IsOrdered s.dm.digest_map
    → IsValid (record s { dm = dev_mgr_init_with_t4p4s s.dm cb counters device_id })
unfolding dev_mgr_init_with_t4p4s dev_mgr_init
started-IsValid s cb counters device_id o = record { sound = init_map-IsSound; ordered = o }
