-- ===== src/Server/Told.antt =====
-- What the specification of server/pi_server.cc tells of two histories: when it is the same.
use p4runtime_grpcpp.Base.{
  ℕ, ◌≡◌, refl, sym, ap, subst, ◌∙◌, false, ◌||◌, List, [], ◌∷◌, Option, Bytes, none, some,
  if◌then◌else◌, arith,
}
use p4runtime_grpcpp.DigestMap.{Digest}
use p4runtime_grpcpp.Digests.{mem}
use p4runtime_grpcpp.Manager.{not_continue}
use p4runtime_grpcpp.Pipeline.AddDigests.{last_named}
use p4runtime_grpcpp.Pipeline.Load.{first_with, first_with-append, elements_of}
use p4runtime_grpcpp.Proto.{WriteRequest, PipelineConfig, p4info_of}
use p4runtime_grpcpp.Server.Asked.{asked_after-cases}
use p4runtime_grpcpp.Server.History.{Request, wrote, set, heard, quiet}
use p4runtime_grpcpp.Server.Spec.{
  Spec, Refines, apply, replay, asked_after, listens, asked_digest, digest_of, Stores, flag,
}
use p4runtime_grpcpp.Server.{Server, StreamRequest, arbitration, packet, digest_ack, other}

-- The same, but for the order in which digests were asked for, and for elements that no lookup finds.
pub record SameTold (a b : Spec) : Type 0 where
  pub cb : a.cb ≡ b.cb
  pub counters : a.counters ≡ b.counters
  pub device_id : a.device_id ≡ b.device_id
  pub config : a.config ≡ b.config
  pub elements : (q : ℕ) → first_with a.elements q ≡ first_with b.elements q
  pub asked : (id : ℕ) → mem id a.asked ≡ mem id b.asked
  pub master : a.master ≡ b.master

pub SameTold-refl : (a : Spec) → SameTold a a
SameTold-refl a = record {
  cb = refl;
  counters = refl;
  device_id = refl;
  config = refl;
  elements = λ q. refl;
  asked = λ id. refl;
  master = refl;
}

pub SameTold-sym : (a b : Spec) → SameTold a b → SameTold b a
SameTold-sym a b same = record {
  cb = sym same.cb;
  counters = sym same.counters;
  device_id = sym same.device_id;
  config = sym same.config;
  elements = λ q. sym (same.elements q);
  asked = λ id. sym (same.asked id);
  master = sym same.master;
}

pub SameTold-trans : (a b c : Spec) → SameTold a b → SameTold b c → SameTold a c
SameTold-trans a b c f g = record {
  cb = f.cb ∙ g.cb;
  counters = f.counters ∙ g.counters;
  device_id = f.device_id ∙ g.device_id;
  config = f.config ∙ g.config;
  elements = λ q. f.elements q ∙ g.elements q;
  asked = λ id. f.asked id ∙ g.asked id;
  master = f.master ∙ g.master;
}

-- A write, by the ids that it asks for.
wrote-asked :
    (a : Spec) (request : WriteRequest) (id : ℕ)
    → mem id (apply a (wrote request)).asked ≡ (
        (if listens a.config (not_continue request.atomicity)
          then mem id (asked_after [] request.updates)
          else false)
        || mem id a.asked)
wrote-asked a request id = ground (arith, asked_after-cases request.updates id a.asked)

asked_digest-same :
    (ids ids' : List ℕ) (o : Option Digest)
    → ((id : ℕ) → mem id ids ≡ mem id ids')
    → asked_digest ids o ≡ asked_digest ids' o
asked_digest-same ids ids' none same = refl
asked_digest-same ids ids' (some d) same = ground (arith, same d.id)

digest_of-same :
    (config : Option PipelineConfig) (ids ids' : List ℕ) (name : Bytes)
    → ((id : ℕ) → mem id ids ≡ mem id ids')
    → digest_of config ids name ≡ digest_of config ids' name
digest_of-same none ids ids' name same = refl
digest_of-same (some config) ids ids' name same =
    asked_digest-same ids ids' (last_named (p4info_of config).digests name) same

pub Refines-SameTold : (s : Server) (a b : Spec) → SameTold a b → Refines s a → Refines s b
Refines-SameTold s a b same r = record {
  cb = r.cb ∙ same.cb;
  counters = r.counters ∙ same.counters;
  device_id = r.device_id ∙ same.device_id;
  has_p4info = r.has_p4info ∙ ap flag same.config;
  elements = λ q. r.elements q ∙ same.elements q;
  digests = λ name.
      r.digests name
      ∙ digest_of-same a.config a.asked b.asked name same.asked
      ∙ ap (λ c. digest_of c b.asked name) same.config;
  differ = r.differ;
  stream = r.stream ∙ same.master;
  stores = subst (λ c. Stores c s.dm.p4info s.saved) same.config r.stores;
}

pub apply-SameTold : (a b : Spec) (r : Request) → SameTold a b → SameTold (apply a r) (apply b r)
apply-SameTold a b (wrote request) same = record {
  cb = ground (arith, same.cb);
  counters = ground (arith, same.counters);
  device_id = ground (arith, same.device_id);
  config = ground (arith, same.config);
  elements = λ q. ground (arith, same.elements q);
  asked = λ id.
      ground
        (arith, wrote-asked a request id, wrote-asked b request id, same.config, same.asked id);
  master = ground (arith, same.master);
}
apply-SameTold a b (set device_id action config) same = record {
  cb = ground (arith, same.cb);
  counters = ground (arith, same.counters);
  device_id = ground arith;
  config = ground (arith, same.config);
  elements = λ q. ground (
    arith,
    same.elements q,
    first_with-append a.elements (elements_of (p4info_of config)) q,
    first_with-append b.elements (elements_of (p4info_of config)) q,
  );
  asked = λ id. ground (arith, same.asked id);
  master = ground (arith, same.master);
}
apply-SameTold a b (heard stream (arbitration device_id high low)) same = record {
  cb = ground (arith, same.cb);
  counters = ground (arith, same.counters);
  device_id = ground (arith, same.device_id);
  config = ground (arith, same.config);
  elements = λ q. ground (arith, same.elements q);
  asked = λ id. ground (arith, same.asked id);
  master = ground (arith, same.device_id, same.master);
}
apply-SameTold a b (heard stream packet) same = same
apply-SameTold a b (heard stream digest_ack) same = same
apply-SameTold a b (heard stream other) same = same
apply-SameTold a b quiet same = same

pub replay-SameTold :
    (rs : List Request) (a b : Spec) → SameTold a b → SameTold (replay a rs) (replay b rs)
replay-SameTold [] a b same = same
replay-SameTold (r ∷ rs) a b same =
    replay-SameTold rs (apply a r) (apply b r) (apply-SameTold a b r same)

-- Two writes ask for the same, in either order.
pub apply-swap_writes :
    (a : Spec) (w v : WriteRequest)
    → SameTold (apply (apply a (wrote w)) (wrote v)) (apply (apply a (wrote v)) (wrote w))
apply-swap_writes a w v =
    let wv = wrote-asked (apply a (wrote w)) v in
    let vw = wrote-asked (apply a (wrote v)) w in
    record {
      cb = ground arith;
      counters = ground arith;
      device_id = ground arith;
      config = ground arith;
      elements = λ q. ground arith;
      asked = λ id. ground (arith, wv id, vw id, wrote-asked a w id, wrote-asked a v id);
      master = ground arith;
    }

-- A write that comes again asks for nothing new.
pub apply-again :
    (a : Spec) (w : WriteRequest)
    → SameTold (apply (apply a (wrote w)) (wrote w)) (apply a (wrote w))
apply-again a w = record {
  cb = ground arith;
  counters = ground arith;
  device_id = ground arith;
  config = ground arith;
  elements = λ q. ground arith;
  asked = λ id. ground (arith, wrote-asked (apply a (wrote w)) w id, wrote-asked a w id);
  master = ground arith;
}

pub apply-swap_heard :
    (a : Spec) (w : WriteRequest) (stream : ℕ) (m : StreamRequest)
    → SameTold
        (apply (apply a (wrote w)) (heard stream m))
        (apply (apply a (heard stream m)) (wrote w))
apply-swap_heard a w stream (arbitration device_id high low) = record {
  cb = ground arith;
  counters = ground arith;
  device_id = ground arith;
  config = ground arith;
  elements = λ q. ground arith;
  asked = λ id. ground arith;
  master = ground arith;
}
apply-swap_heard a w stream packet = SameTold-refl _
apply-swap_heard a w stream digest_ack = SameTold-refl _
apply-swap_heard a w stream other = SameTold-refl _
