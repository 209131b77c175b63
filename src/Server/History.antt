-- ===== src/Server/History.antt =====
-- What came to the server of server/pi_server.cc, in the order in which it came.
use mathlib.Core.List.{append_assoc}
use p4runtime_grpcpp.Base.{ℕ, ◌≡◌, refl, sym, ap, ◌∙◌, List, [], ◌∷◌, ◌++◌, if◌then◌else◌}
use p4runtime_grpcpp.IdMap.{Element}
use p4runtime_grpcpp.Messages.{Platform}
use p4runtime_grpcpp.Pipeline.AddDigests.{HasUniqueIds}
use p4runtime_grpcpp.Pipeline.Load.{elements_of}
use p4runtime_grpcpp.Pipeline.{takes_config}
use p4runtime_grpcpp.Proto.{WriteRequest, SetAction, PipelineConfig, p4info_of}
use p4runtime_grpcpp.Server.Reach.{
  Step, writes, sets, gets, reads, digests, opens, messages, closes, Reach, here, next,
}
use p4runtime_grpcpp.Server.{Server, StreamRequest}

-- What may change the device. A question, a digest, and a stream that opens or ends is `quiet`.
pub data Request : Type 0 where
  wrote : WriteRequest → Request
  set : (device_id : ℕ) → SetAction → PipelineConfig → Request
  heard : (stream : ℕ) → StreamRequest → Request
  quiet : Request

abbrev pub request_of : {p : Platform} {s s' : Server} → Step p s s' → Request
request_of (writes request status s'' calls run) = wrote request
request_of (sets disk device_id action config status s'' run) = set device_id action config
request_of (messages stream m live goes) = heard stream m
request_of (gets disk type) = quiet
request_of (reads request status responses run) = quiet
request_of (digests now digest written run) = quiet
request_of (opens stream new) = quiet
request_of (closes stream live) = quiet

abbrev pub history : {p : Platform} {s s' : Server} → Reach p s s' → List Request
history here = []
history (next reach step) = history reach ++ request_of step ∷ []

-- The elements that a request brings to the id map.
abbrev pub brought_by : Request → List Element
brought_by (set device_id action config) =
    if takes_config action then elements_of (p4info_of config) else []
brought_by _ = []

abbrev pub all_brought : List Request → List Element
all_brought [] = []
all_brought (r ∷ rs) = brought_by r ++ all_brought rs

-- No configuration that is taken has two digests with one id.
abbrev pub DigestsDiffer : Request → Type 0
DigestsDiffer (set device_id action config) = HasUniqueIds (p4info_of config).digests
DigestsDiffer _ = Unit {0}

pub all_brought-append :
    (rs qs : List Request) → all_brought (rs ++ qs) ≡ all_brought rs ++ all_brought qs
all_brought-append [] qs = refl
all_brought-append (r ∷ rs) qs =
    ap (◌++◌ (brought_by r)) (all_brought-append rs qs)
    ∙ sym (append_assoc (brought_by r) (all_brought rs) (all_brought qs))
