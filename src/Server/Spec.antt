-- ===== src/Server/Spec.antt =====
-- What the server of server/pi_server.cc promises, told from its history alone: which elements its id
-- map finds, which digests are switched on, which stream it keeps, and what it takes a request for.
pub mod Asked
pub mod Brought
pub mod Heard
pub mod Kept
pub mod Taken
use p4runtime_grpcpp.Base.{
  ℕ, Bool, true, List, [], ◌∷◌, ◌++◌, Option, none, some, Bytes, not, ◌==◌, if◌then◌else◌, ◌≡◌,
  refl,
}
use p4runtime_grpcpp.Device.{CounterRead, Saved}
use p4runtime_grpcpp.DigestMap.Laws.{UniqueIds}
use p4runtime_grpcpp.DigestMap.{Digest, find}
use p4runtime_grpcpp.Digests.{mem}
use p4runtime_grpcpp.IdMap.{Element, get_element}
use p4runtime_grpcpp.Manager.{not_continue}
use p4runtime_grpcpp.Pipeline.AddDigests.{last_named}
use p4runtime_grpcpp.Pipeline.Load.{elements_of, first_with}
use p4runtime_grpcpp.Pipeline.{takes_config}
use p4runtime_grpcpp.Proto.{Entity, Update, P4Info, PipelineConfig, p4info_of, cookie_of}
use p4runtime_grpcpp.Server.History.{Request, wrote, set, heard, quiet}
use p4runtime_grpcpp.Server.{Server, StreamRequest, arbitration}

-- `config` is the configuration that was taken last, `elements` is what all of them brought, `asked` the ids of
-- digests that were asked for since the last, and `master` the stream that arbitrated last.
pub record Spec : Type 0 where
  pub cb : Option ℕ
  pub counters : Option CounterRead
  pub device_id : ℕ
  pub config : Option PipelineConfig
  pub elements : List Element
  pub asked : List ℕ
  pub master : Option ℕ

abbrev pub fresh : ℕ → CounterRead → ℕ → Spec
fresh cb counters device_id = record {
  cb = some cb;
  counters = some counters;
  device_id = device_id;
  config = none;
  elements = [];
  asked = [];
  master = none;
}

-- The ids that the updates of a write ask for, the last one first.
abbrev pub asked_after : List ℕ → List Update → List ℕ
asked_after ids [] = ids
asked_after ids (u ∷ us) = elim (u.entity) [
  | Entity.digest_entry digest_id ↦ asked_after (digest_id ∷ ids) us
  | _ ↦ asked_after ids us
]

-- Before a configuration, and from a write that is to be atomic, nothing is taken.
abbrev pub listens : Option PipelineConfig → Bool → Bool
listens none atomic = Bool.false
listens (some config) atomic = not atomic

abbrev pub hear : Spec → ℕ → StreamRequest → Spec
hear a stream (arbitration device_id high low) =
    if a.device_id == device_id then record a { master = some stream } else a
hear a stream m = a

-- A write asks for the digests of its updates.
abbrev pub ask : Spec → List Update → Spec
ask a us = record a { asked = asked_after a.asked us }

-- A configuration is taken.
abbrev pub take_config : Spec → ℕ → PipelineConfig → Spec
take_config a device_id config = record a {
  device_id = device_id;
  config = some config;
  elements = a.elements ++ elements_of (p4info_of config);
  asked = [];
}

abbrev pub with_id : Spec → ℕ → Spec
with_id a device_id = record a { device_id = device_id }

abbrev pub apply : Spec → Request → Spec
apply a (wrote request) =
    if listens a.config (not_continue request.atomicity) then ask a request.updates else a
apply a (set device_id action config) =
    if takes_config action then take_config a device_id config else with_id a device_id
apply a (heard stream m) = hear a stream m
apply a quiet = a

abbrev pub replay : Spec → List Request → Spec
replay a [] = a
replay a (r ∷ rs) = replay (apply a r) rs

pub replay-append :
    (rs : List Request) (a : Spec) (qs : List Request)
    → replay a (rs ++ qs) ≡ replay (replay a rs) qs
replay-append [] a qs = refl
replay-append (r ∷ rs) a qs = replay-append rs (apply a r) qs

abbrev pub flag : Option PipelineConfig → ℕ
flag none = 0
flag (some config) = 1

-- A digest is switched on if its id was asked for.
abbrev pub asked_digest : List ℕ → Option Digest → Option Digest
asked_digest asked none = none
asked_digest asked (some d) = some (record d { active = mem d.id asked })

-- The digest of a name: the last of that name in the P4Info.
abbrev pub digest_of : Option PipelineConfig → List ℕ → Bytes → Option Digest
digest_of none asked name = none
digest_of (some config) asked name = asked_digest asked (last_named (p4info_of config).digests name)

-- What is kept for the question for the configuration.
abbrev pub Stores : Option PipelineConfig → P4Info → Saved → Type 0
Stores none info saved = Unit {0}
Stores (some config) info saved =
    (info ≡ p4info_of config)
    × (saved.has_config_cookie ≡ true)
    × (saved.config_cookie ≡ cookie_of config)

-- The server is what the specification says.
pub record Refines (s : Server) (a : Spec) : Type 0 where
  pub cb : s.dm.cb ≡ a.cb
  pub counters : s.dm.get_counter_by_name ≡ a.counters
  pub device_id : s.dm.device_id ≡ a.device_id
  pub has_p4info : s.dm.has_p4info ≡ flag a.config
  pub elements : (q : ℕ) → get_element s.dm.id_map q ≡ first_with a.elements q
  pub digests : (name : Bytes) → find s.dm.digest_map name ≡ digest_of a.config a.asked name
  pub differ : UniqueIds s.dm.digest_map
  pub stream : s.dm.stream ≡ a.master
  pub stores : Stores a.config s.dm.p4info s.saved
