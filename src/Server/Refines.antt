-- ===== src/Server/Refines.antt =====
-- server/pi_server.cc against its specification: whatever comes, in whatever order.
use mathlib.Core.List.{append_assoc, append-nil}
use p4runtime_grpcpp.Base.{
  All, All-append, ℕ, ◌<◌, ◌≤◌, ◌≡◌, refl, sym, ap, subst, ◌∙◌, List, [], ◌∷◌, ◌++◌, none, arith,
}
use p4runtime_grpcpp.Device.{Device, CounterRead, dev_mgr_init, dev_mgr_init_with_t4p4s}
use p4runtime_grpcpp.DigestMap.{find}
use p4runtime_grpcpp.DigestMap.Laws.{UniqueIds, IsOrdered}
use p4runtime_grpcpp.IdMap.Bucket.{FitsBuckets, hashed_to, init_map-FitsBuckets}
use p4runtime_grpcpp.IdMap.Lookup.{IsProbed, get_element-init_map}
use p4runtime_grpcpp.IdMap.{Element, max_hash_size, redundancy_map}
use p4runtime_grpcpp.Messages.{Platform}
use p4runtime_grpcpp.Server.Reach.{
  Step, writes, sets, gets, reads, digests, opens, messages, closes, Reach, here, next, IsValid,
  started-IsValid, Reach-Progress,
}
use p4runtime_grpcpp.Server.History.{
  Request, request_of, history, brought_by, all_brought, DigestsDiffer, all_brought-append,
}
use p4runtime_grpcpp.Server.Spec.{Spec, Refines, replay-append, apply, replay, fresh}
use p4runtime_grpcpp.Server.Spec.Kept.{same-Refines, get_config-same, message-Refines}
use p4runtime_grpcpp.Server.Spec.Heard.{write-Refines}
use p4runtime_grpcpp.Server.Spec.Taken.{set_config-Refines}
use p4runtime_grpcpp.Server.Stream.{message-kept}
use p4runtime_grpcpp.Server.Written.{write-kept}
use p4runtime_grpcpp.Server.{Server}

-- One step, while there is room for what it brings and for other elements.
Step-Refines :
    (p : Platform) (s s' : Server) (a : Spec) (step : Step p s s') (es : List Element)
    → IsProbed s.dm.id_map
    → DigestsDiffer (request_of step)
    → FitsBuckets s.dm.id_map (brought_by (request_of step) ++ es)
    → Refines s a
    → Refines s' (apply a (request_of step)) × FitsBuckets s'.dm.id_map es
Step-Refines p s s' a (writes request status s'' calls run) es probed unique room r = (
  write-Refines p s s' a request status calls a.config refl run r,
  write-kept (λ (t : Server). FitsBuckets t.dm.id_map es) p s s' request status calls run room room,
)
Step-Refines p s s' a (sets disk device_id action config status s'' run) es probed unique room r =
    set_config-Refines disk s s' a device_id action config status es run probed unique room r
Step-Refines p s s' a (gets disk type) es probed unique room r =
    let (device, has, cookie) = get_config-same disk s type in
    (
      same-Refines s _ a device (has, cookie) r,
      subst (λ (dm : Device). FitsBuckets dm.id_map es) (sym device) room,
    )
Step-Refines p s s' a (reads request status responses run) es probed unique room r = (r, room)
Step-Refines p s s' a (digests now digest written run) es probed unique room r = (r, room)
Step-Refines p s s' a (opens stream new) es probed unique room r =
    (same-Refines s _ a refl (refl, refl) r, room)
Step-Refines p s s' a (messages stream m live goes) es probed unique room r = (
  message-Refines s a stream m goes r,
  message-kept (λ (t : Server). FitsBuckets t.dm.id_map es) s stream m goes room room,
)
Step-Refines p s s' a (closes stream live) es probed unique room r =
    (same-Refines s _ a refl (refl, refl) r, room)

-- The requests of a history, while there is room for what they bring and for other elements.
Reach-Refines :
    (p : Platform) (s s' : Server) (a : Spec) (reach : Reach p s s') (es : List Element)
    → IsValid s
    → All DigestsDiffer (history reach)
    → FitsBuckets s.dm.id_map (all_brought (history reach) ++ es)
    → Refines s a
    → Refines s' (replay a (history reach)) × FitsBuckets s'.dm.id_map es
Reach-Refines p s s' a here es valid unique room r = (r, room)
Reach-Refines p s s' a (next {t} {u} reach step) es valid unique room r =
    let request : Request = request_of step in
    let apart : all_brought (history reach ++ request ∷ []) ++ es
        ≡ all_brought (history reach) ++ (brought_by request ++ es) =
      ap (λ (b : List Element). b ++ es)
        (all_brought-append (history reach) (request ∷ [])
          ∙ ap (◌++◌ (all_brought (history reach))) (append-nil (brought_by request)))
      ∙ append_assoc (all_brought (history reach)) (brought_by request) es in
    let (before, one) = All-append DigestsDiffer (history reach) (request ∷ []) unique in
    let (r', room') =
      Reach-Refines p s t a reach (brought_by request ++ es) valid before
        (subst (FitsBuckets s.dm.id_map) apart room) r in
    let probed = (Reach-Progress p s t valid reach).valid.sound.probed in
    let (r'', left) =
      Step-Refines p t s' (replay a (history reach)) step es probed one.0 room' r' in
    (subst (Refines s') (sym (replay-append (history reach) a (request ∷ []))) r'', left)

-- The requests bring at most four elements for each hash value.
abbrev pub FitsMap : List Request → Type 0
FitsMap rs = (b : ℕ) → b < max_hash_size → hashed_to b (all_brought rs) ≤ redundancy_map

-- A server that was started with nothing in its static memory.
abbrev pub IsUnused : Server → Type 0
IsUnused s = (s.dm.digest_map ≡ []) × (s.dm.stream ≡ none)

started-Refines :
    (s : Server) (cb : ℕ) (counters : CounterRead) (device_id : ℕ)
    → IsUnused s
    → Refines
        (record s { dm = dev_mgr_init_with_t4p4s s.dm cb counters device_id })
        (fresh cb counters device_id)
unfolding dev_mgr_init_with_t4p4s dev_mgr_init find
started-Refines s cb counters device_id (nothing_known, no_stream) = record {
  cb = refl;
  counters = refl;
  device_id = refl;
  has_p4info = refl;
  elements = λ q. get_element-init_map q;
  digests = λ name. ground (arith, nothing_known);
  differ = subst UniqueIds (sym nothing_known) tt;
  stream = no_stream;
  stores = tt;
}

-- While a history leaves room for some elements, the server has room for them.
pub started-room :
    (p : Platform) (s s' : Server) (cb : ℕ) (counters : CounterRead) (device_id : ℕ)
    (reach : Reach p (record s { dm = dev_mgr_init_with_t4p4s s.dm cb counters device_id }) s')
    (es : List Element)
    → IsUnused s
    → ((b : ℕ)
        → b < max_hash_size
        → hashed_to b (all_brought (history reach) ++ es) ≤ redundancy_map)
    → All DigestsDiffer (history reach)
    → Refines s' (replay (fresh cb counters device_id) (history reach))
      × FitsBuckets s'.dm.id_map es
      × IsProbed s'.dm.id_map
unfolding dev_mgr_init_with_t4p4s dev_mgr_init
started-room p s s' cb counters device_id reach es unused few differ =
    let valid = started-IsValid s cb counters device_id (subst IsOrdered (sym unused.0) tt) in
    let room = init_map-FitsBuckets (all_brought (history reach) ++ es) few in
    let (r, left) =
      Reach-Refines p _ s' (fresh cb counters device_id) reach es valid differ room
        (started-Refines s cb counters device_id unused) in
    (r, left, (Reach-Progress p _ s' valid reach).valid.sound.probed)

-- From the start of a server whose memory holds no digest and no stream on, whatever writes, reads,
-- configurations, streams and digests come, in whatever order and whatever its files do: where its
-- configurations bring at most four elements for each hash value in all, and none has two digests
-- with one id, the server is what the specification tells from the history. A lookup finds the
-- first element that the configurations brought under the id; the digests are those of the last
-- configuration, and switched on are those whose id a write asked for since then; the P4Info and
-- the cookie are those of the last configuration; the stream is the one that arbitrated last; the
-- callbacks are those of the start.
pub started-replay :
    (p : Platform) (s s' : Server) (cb : ℕ) (counters : CounterRead) (device_id : ℕ)
    (reach : Reach p (record s { dm = dev_mgr_init_with_t4p4s s.dm cb counters device_id }) s')
    → IsUnused s
    → FitsMap (history reach)
    → All DigestsDiffer (history reach)
    → Refines s' (replay (fresh cb counters device_id) (history reach))
started-replay p s s' cb counters device_id reach unused few differ =
    (started-room p s s' cb counters device_id reach [] unused
      (rw (append-nil (all_brought (history reach))) few) differ).0
