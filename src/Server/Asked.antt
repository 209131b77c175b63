-- ===== src/Server/Asked.antt =====
-- What the specification of server/pi_server.cc keeps, against the requests that it comes from.
use p4runtime_grpcpp.Base.{
  ℕ, ◌≡◌, ◌⊎◌, inl, inr, refl, ap, true, List, [], ◌∷◌, ◌++◌, All, some, Bool-cases, arith, ◌==◌,
  ◌||◌,
}
use p4runtime_grpcpp.Digests.{mem}
use p4runtime_grpcpp.Manager.{not_continue}
use p4runtime_grpcpp.Pipeline.{takes_config}
use p4runtime_grpcpp.Proto.{Entity, Update, PipelineConfig, WriteRequest, SetAction}
use p4runtime_grpcpp.Server.History.{Request, wrote, set, heard, quiet}
use p4runtime_grpcpp.Server.Spec.{Spec, apply, replay, asked_after, listens}
use p4runtime_grpcpp.Server.{arbitration, packet, digest_ack, other}

-- The request brings a configuration that is taken.
abbrev pub IsTaken : Request → Type 0
IsTaken (set device_id action config) = takes_config action ≡ true
IsTaken _ = ⊥

-- A write of the history asked for the id, and no configuration was taken since.
abbrev pub AskedIn : ℕ → List Request → Type 0
AskedIn id rs =
    (before : List Request) × (request : WriteRequest) × (since : List Request) × (rs
      ≡ before ++ wrote request ∷ since)
    × (mem id (asked_after [] request.updates) ≡ true)
    × All (λ r. ¬ IsTaken r) since

-- An id that was asked for after some updates was asked for before, or by one of them.
pub asked_after-cases :
    (us : List Update) (id : ℕ) (ids : List ℕ)
    → mem id (asked_after ids us) ≡ (mem id (asked_after [] us) || mem id ids)
asked_after-cases [] id ids = refl
asked_after-cases (u ∷ us) id ids = by_entity u.entity (asked_after-cases us id)
  where
    by_entity :
        (entity : Entity)
        → ((ids' : List ℕ)
            → mem id (asked_after ids' us) ≡ (mem id (asked_after [] us) || mem id ids'))
        → let us' = record u { entity = entity } ∷ us in
          mem id (asked_after ids us') ≡ (mem id (asked_after [] us') || mem id ids)
    by_entity (Entity.digest_entry digest_id) ih =
        ground (arith, ih (digest_id ∷ ids), ih (digest_id ∷ []))
    by_entity (Entity.table_entry entry) ih = ih ids
    by_entity (Entity.counter_entry entry) ih = ih ids
    by_entity Entity.direct_counter_entry ih = ih ids
    by_entity Entity.other ih = ih ids

-- An id that is asked for after a request was asked for before, and the request is no configuration, or
-- the request asks for it.
apply-asked :
    (a : Spec) (r : Request) (id : ℕ)
    → mem id (apply a r).asked ≡ true
    → ((mem id a.asked ≡ true) × (¬ IsTaken r))
      ⊎ ((request : WriteRequest) × (r ≡ wrote request)
          × (mem id (asked_after [] request.updates) ≡ true))
apply-asked a (wrote request) id asked =
    elim (Bool-cases (listens a.config (not_continue request.atomicity))) [
      | inl heard_it ↦ elim (Bool-cases (mem id (asked_after [] request.updates))) [
        | inl here ↦ inr (request, refl, here)
        | inr not_here ↦ inl (
          ground (arith, heard_it, not_here, asked, asked_after-cases request.updates id a.asked),
          λ taken. taken,
        )
      ]
      | inr ignored ↦ inl (ground (arith, ignored, asked), λ taken. taken)
    ]
apply-asked a (set device_id action config) id asked = elim (Bool-cases (takes_config action)) [
  | inl takes ↦ absurd (ground (arith, takes, asked))
  | inr skipped ↦ inl (ground (arith, skipped, asked), λ taken. ground (arith, skipped, taken))
]
apply-asked a (heard stream (arbitration device_id high low)) id asked =
    inl (ground (arith, asked), λ taken. taken)
apply-asked a (heard stream packet) id asked = inl (asked, λ taken. taken)
apply-asked a (heard stream digest_ack) id asked = inl (asked, λ taken. taken)
apply-asked a (heard stream other) id asked = inl (asked, λ taken. taken)
apply-asked a quiet id asked = inl (asked, λ taken. taken)

pub replay-asked :
    (rs : List Request) (a : Spec) (id : ℕ)
    → mem id (replay a rs).asked ≡ true
    → ((mem id a.asked ≡ true) × All (λ r. ¬ IsTaken r) rs) ⊎ AskedIn id rs
replay-asked [] a id asked = inl (asked, tt)
replay-asked (r ∷ rs) a id asked = elim (replay-asked rs (apply a r) id asked) [
  | inr (before, request, since, is, here, none_taken) ↦
      inr (r ∷ before, request, since, ap (◌∷◌ r) is, here, none_taken)
  | inl (now, none_taken) ↦ elim (apply-asked a r id now) [
    | inl (earlier, not_taken) ↦ inl (earlier, (not_taken, none_taken))
    | inr (request, is, here) ↦ inr ([], request, rs, ap (λ q. q ∷ rs) is, here, none_taken)
  ]
]

-- The configuration that was taken last in the history.
abbrev pub LastIn : PipelineConfig → List Request → Type 0
LastIn config rs =
    (before : List Request) × (device_id : ℕ) × (action : SetAction) × (since : List Request) × (rs
      ≡ before ++ set device_id action config ∷ since)
    × (takes_config action ≡ true)
    × All (λ r. ¬ IsTaken r) since

apply-config :
    (a : Spec) (r : Request) (config : PipelineConfig)
    → (apply a r).config ≡ some config
    → ((a.config ≡ some config) × (¬ IsTaken r))
      ⊎ ((device_id : ℕ) × (action : SetAction) × (r ≡ set device_id action config)
          × (takes_config action ≡ true))
apply-config a (wrote request) config is = inl (ground (arith, is), λ taken. taken)
apply-config a (set device_id action config') config is = elim (Bool-cases (takes_config action)) [
  | inl takes ↦ inr (device_id, action, ground (arith, takes, is), takes)
  | inr skipped ↦ inl (ground (arith, skipped, is), λ taken. ground (arith, skipped, taken))
]
apply-config a (heard stream (arbitration device_id high low)) config is =
    inl (ground (arith, is), λ taken. taken)
apply-config a (heard stream packet) config is = inl (is, λ taken. taken)
apply-config a (heard stream digest_ack) config is = inl (is, λ taken. taken)
apply-config a (heard stream other) config is = inl (is, λ taken. taken)
apply-config a quiet config is = inl (is, λ taken. taken)

pub replay-config :
    (rs : List Request) (a : Spec) (config : PipelineConfig)
    → (replay a rs).config ≡ some config
    → ((a.config ≡ some config) × All (λ r. ¬ IsTaken r) rs) ⊎ LastIn config rs
replay-config [] a config is = inl (is, tt)
replay-config (r ∷ rs) a config is = elim (replay-config rs (apply a r) config is) [
  | inr (before, device_id, action, since, splits, takes, none_taken) ↦
      inr (r ∷ before, device_id, action, since, ap (◌∷◌ r) splits, takes, none_taken)
  | inl (now, none_taken) ↦ elim (apply-config a r config now) [
    | inl (earlier, not_taken) ↦ inl (earlier, (not_taken, none_taken))
    | inr (device_id, action, here, takes) ↦
        inr ([], device_id, action, rs, ap (λ q. q ∷ rs) here, takes, none_taken)
  ]
]

-- The stream arbitrated in the history.
abbrev pub ArbitratedIn : ℕ → List Request → Type 0
ArbitratedIn stream rs =
    (before : List Request) × (device_id : ℕ) × (high : ℕ) × (low : ℕ) × (since : List Request)
    × (rs ≡ before ++ heard stream (arbitration device_id high low) ∷ since)

apply-master :
    (a : Spec) (r : Request) (stream : ℕ)
    → (apply a r).master ≡ some stream
    → (a.master ≡ some stream)
      ⊎ ((device_id : ℕ) × (high : ℕ) × (low : ℕ) × (r
            ≡ heard stream (arbitration device_id high low)))
apply-master a (wrote request) stream is = inl (ground (arith, is))
apply-master a (set device_id action config) stream is = inl (ground (arith, is))
apply-master a (heard k (arbitration device_id high low)) stream is =
    elim (Bool-cases (a.device_id == device_id)) [
      | inl same ↦ inr (device_id, high, low, ground (arith, same, is))
      | inr differ ↦ inl (ground (arith, differ, is))
    ]
apply-master a (heard k packet) stream is = inl is
apply-master a (heard k digest_ack) stream is = inl is
apply-master a (heard k other) stream is = inl is
apply-master a quiet stream is = inl is

pub replay-master :
    (rs : List Request) (a : Spec) (stream : ℕ)
    → (replay a rs).master ≡ some stream
    → (a.master ≡ some stream) ⊎ ArbitratedIn stream rs
replay-master [] a stream is = inl is
replay-master (r ∷ rs) a stream is = elim (replay-master rs (apply a r) stream is) [
  | inr (before, device_id, high, low, since, splits) ↦
      inr (r ∷ before, device_id, high, low, since, ap (◌∷◌ r) splits)
  | inl now ↦ elim (apply-master a r stream now) [
    | inl earlier ↦ inl earlier
    | inr (device_id, high, low, here) ↦ inr ([], device_id, high, low, rs, ap (λ q. q ∷ rs) here)
  ]
]
