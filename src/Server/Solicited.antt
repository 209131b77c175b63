-- ===== src/Server/Solicited.antt =====
-- server/pi_server.cc: the digests that go out, against the history that led there.
use p4runtime_grpcpp.Base.{
  ℕ, ◌≡◌, ◌⊎◌, inl, inr, subst, refl, sym, ◌∙◌, true, List, [], ◌∷◌, All, Option, none, some, Bytes,
  ok, Bool-cases, arith, Run-cases,
}
use p4runtime_grpcpp.Device.{Device, CounterRead, dev_mgr_init_with_t4p4s}
use p4runtime_grpcpp.DigestMap.{Digest, find}
use p4runtime_grpcpp.Digests.{
  P4Digest, DigestList, StreamWrite, mem, add_members, write_stream, dev_mgr_send_digest,
}
use p4runtime_grpcpp.Messages.{Platform}
use p4runtime_grpcpp.Pipeline.AddDigests.{last_named}
use p4runtime_grpcpp.Proto.{PipelineConfig, p4info_of}
use p4runtime_grpcpp.Server.History.{history, DigestsDiffer}
use p4runtime_grpcpp.Server.Reach.{Reach}
use p4runtime_grpcpp.Server.Refines.{IsUnused, FitsMap, started-replay}
use p4runtime_grpcpp.Server.Spec.{Spec, replay, fresh, digest_of}
use p4runtime_grpcpp.Server.{Server}
use p4runtime_grpcpp.Server.Asked.{
  AskedIn, LastIn, ArbitratedIn, replay-asked, replay-config, replay-master,
}

-- A message that was written is the only one. It went to the stream that the device keeps, which is
-- there, under the id that its name has, and that digest is switched on.
Went : List ℕ → Device → P4Digest → StreamWrite DigestList → List (StreamWrite DigestList) → Type 0
Went live dm digest w ws =
    (d : Digest) × (find dm.digest_map digest.field_list_name ≡ some d)
    × (d.active ≡ true)
    × (dm.stream ≡ some w.stream)
    × (mem w.stream live ≡ true)
    × (w.response.digest_id ≡ d.id)
    × (ws ≡ [])

module _ (p : Platform) (live : List ℕ) (now : ℕ) (dm : Device) (digest : P4Digest)
    (w : StreamWrite DigestList) (ws : List (StreamWrite DigestList))
    (run : dev_mgr_send_digest p live now dm digest ≡ ok (w ∷ ws)) where
  sends :
      (d : Digest) (stream : Option ℕ)
      → find dm.digest_map digest.field_list_name ≡ some d
      → dm.stream ≡ stream
      → d.active ≡ true
      → Went live dm digest w ws
  unfolding dev_mgr_send_digest write_stream Went
  sends d stream found at on = elim (Run-cases (add_members p digest.list_size digest.fields)) [
    | inr (_, over) ↦ absurd (ground (arith, found, on, over, run))
    | inl (members, fit) ↦ to stream at members fit
  ]
    where
      to :
          (stream : Option ℕ)
          → dm.stream ≡ stream
          → (members : List Bytes) → add_members p digest.list_size digest.fields ≡ ok members
          → Went live dm digest w ws
      to none at members fit = absurd (ground (arith, found, on, fit, at, run))
      to (some k) at members fit = elim (Bool-cases (mem k live)) [
        | inr gone ↦ absurd (ground (arith, found, on, fit, at, gone, run))
        | inl there ↦ (
          d,
          found,
          on,
          ground (arith, found, on, fit, at, there, run),
          ground (arith, found, on, fit, at, there, run),
          ground (arith, found, on, fit, at, there, run),
          ground (arith, found, on, fit, at, there, run),
        )
      ]

  send_digest-Went :
      (known : Option Digest)
      → find dm.digest_map digest.field_list_name ≡ known
      → Went live dm digest w ws
  unfolding dev_mgr_send_digest
  send_digest-Went none found = absurd (ground (arith, found, run))
  send_digest-Went (some d) found = elim (Bool-cases d.active) [
    | inr off ↦ absurd (ground (arith, found, off, run))
    | inl on ↦ sends d dm.stream found refl on
  ]

-- A digest that is switched on is one of the configuration, and its id was asked for.
digest_of-some :
    (config : Option PipelineConfig) (ids : List ℕ) (name : Bytes) (d : Digest)
    → digest_of config ids name ≡ some d
    → d.active ≡ true
    → (c : PipelineConfig) × (config ≡ some c)
      × (named : Digest) × (last_named (p4info_of c).digests name ≡ some named)
      × (named.id ≡ d.id)
      × (mem d.id ids ≡ true)
digest_of-some none ids name d is on = cc
digest_of-some (some c) ids name d is on = of_named (last_named (p4info_of c).digests name) refl
  where
    of_named :
        (o : Option Digest)
        → last_named (p4info_of c).digests name ≡ o
        → (c' : PipelineConfig) × (some c ≡ some c')
          × (named : Digest) × (last_named (p4info_of c').digests name ≡ some named)
          × (named.id ≡ d.id)
          × (mem d.id ids ≡ true)
    of_named none e = absurd (ground (arith, e, is))
    of_named (some named) e = (c, refl, named, e, ground (arith, e, is), ground (arith, e, is, on))

-- What a start does not have came later.
later : {A B : Type 0} → A ⊎ B → ¬ A → B
later (inl a) never = absurd (never a)
later (inr b) never = b

-- From the start of a server whose memory holds no digest and no stream on, where its
-- configurations bring at most four elements for each hash value in all, and none has two digests
-- with one id: if a digest of the data plane goes out, then in one message, to a stream that is
-- there and that arbitrated before. Its id is that of its name in the configuration that was taken
-- last, and a write asked for that id since then.
pub digest-solicited :
    (p : Platform) (s s' : Server) (cb : ℕ) (counters : CounterRead) (device_id : ℕ)
    (reach : Reach p (record s { dm = dev_mgr_init_with_t4p4s s.dm cb counters device_id }) s')
    (now : ℕ) (digest : P4Digest) (w : StreamWrite DigestList) (ws : List (StreamWrite DigestList))
    → IsUnused s
    → FitsMap (history reach)
    → All DigestsDiffer (history reach)
    → dev_mgr_send_digest p s'.live now s'.dm digest ≡ ok (w ∷ ws)
    → (ws ≡ [])
      × (mem w.stream s'.live ≡ true)
      × ArbitratedIn w.stream (history reach)
      × (config : PipelineConfig) × LastIn config (history reach)
      × (d : Digest) × (last_named (p4info_of config).digests digest.field_list_name ≡ some d)
      × (w.response.digest_id ≡ d.id)
      × AskedIn d.id (history reach)
unfolding Went
digest-solicited p s s' cb counters device_id reach now digest w ws unused few differ run =
    let start : Spec = fresh cb counters device_id in
    let r = started-replay p s s' cb counters device_id reach unused few differ in
    let (d, found, on, kept, there, id, only) =
      send_digest-Went p s'.live now s'.dm digest w ws run _ refl in
    let (config, is, named, known, same, asked) =
      digest_of-some (replay start (history reach)).config _ digest.field_list_name d
        (sym (r.digests digest.field_list_name) ∙ found) on in
    let asked_id : mem named.id (replay start (history reach)).asked ≡ true =
      subst (λ k. mem k (replay start (history reach)).asked ≡ true) (sym same) asked in
    (
      only,
      there,
      later (replay-master (history reach) start w.stream (sym r.stream ∙ kept)) (λ at. cc),
      config,
      later (replay-config (history reach) start config is) (λ at. cc),
      named,
      known,
      id ∙ sym same,
      later (replay-asked (history reach) start named.id asked_id) (λ at. cc),
    )
