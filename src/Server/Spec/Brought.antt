-- ===== src/Server/Spec/Brought.antt =====
-- What the configurations of a history to server/pi_server.cc brought, and what it leaves alone.
use mathlib.Core.List.{append-nil, append_assoc}
use p4runtime_grpcpp.Base.{
  ℕ, ◌≡◌, refl, sym, ap, ◌∙◌, Bool-cases, inl, inr, List, [], ◌∷◌, ◌++◌, Option, none, some, arith,
}
use p4runtime_grpcpp.Device.{CounterRead}
use p4runtime_grpcpp.IdMap.{Element, get_element}
use p4runtime_grpcpp.Manager.{not_continue}
use p4runtime_grpcpp.Pipeline.Load.{first_with}
use p4runtime_grpcpp.Proto.{PipelineConfig}
use p4runtime_grpcpp.Server.History.{Request, wrote, set, heard, quiet, brought_by, all_brought}
use p4runtime_grpcpp.Server.Spec.{Refines, Spec, apply, replay, fresh, listens, flag}
use p4runtime_grpcpp.Server.{Server, arbitration, packet, digest_ack, other}

-- The elements of a specification that was never configured are none.
abbrev IsBare : Spec → Type 0
IsBare a = a.config ≡ none → a.elements ≡ []

apply-elements : (a : Spec) (r : Request) → (apply a r).elements ≡ a.elements ++ brought_by r
apply-elements a (wrote request) =
    elim (Bool-cases (listens a.config (not_continue request.atomicity))) [
      | inl heard_it ↦ ground (arith, heard_it, append-nil a.elements)
      | inr ignored ↦ ground (arith, ignored, append-nil a.elements)
    ]
apply-elements a (set device_id action config) = ground (arith, append-nil a.elements)
apply-elements a (heard stream (arbitration device_id high low)) =
    ground (arith, append-nil a.elements)
apply-elements a (heard stream packet) = sym (append-nil a.elements)
apply-elements a (heard stream digest_ack) = sym (append-nil a.elements)
apply-elements a (heard stream other) = sym (append-nil a.elements)
apply-elements a quiet = sym (append-nil a.elements)

apply-IsBare : (a : Spec) (r : Request) → IsBare a → IsBare (apply a r)
apply-IsBare a (wrote request) bare = λ none_taken. ground (arith, bare)
apply-IsBare a (set device_id action config) bare = λ none_taken. ground (arith, bare)
apply-IsBare a (heard stream (arbitration device_id high low)) bare =
    λ none_taken. ground (arith, bare)
apply-IsBare a (heard stream packet) bare = bare
apply-IsBare a (heard stream digest_ack) bare = bare
apply-IsBare a (heard stream other) bare = bare
apply-IsBare a quiet bare = bare

replay-elements :
    (rs : List Request) (a : Spec) → (replay a rs).elements ≡ a.elements ++ all_brought rs
replay-elements [] a = sym (append-nil a.elements)
replay-elements (r ∷ rs) a =
    replay-elements rs (apply a r)
    ∙ ap (λ (es : List Element). es ++ all_brought rs) (apply-elements a r)
    ∙ append_assoc a.elements (brought_by r) (all_brought rs)

replay-IsBare : (rs : List Request) (a : Spec) → IsBare a → IsBare (replay a rs)
replay-IsBare [] a bare = bare
replay-IsBare (r ∷ rs) a bare = replay-IsBare rs (apply a r) (apply-IsBare a r bare)

-- The callbacks are those of the start.
apply-callbacks :
    (a : Spec) (r : Request) → ((apply a r).cb ≡ a.cb) × ((apply a r).counters ≡ a.counters)
apply-callbacks a (wrote request) = ground arith
apply-callbacks a (set device_id action config) = ground arith
apply-callbacks a (heard stream (arbitration device_id high low)) = ground arith
apply-callbacks a (heard stream packet) = (refl, refl)
apply-callbacks a (heard stream digest_ack) = (refl, refl)
apply-callbacks a (heard stream other) = (refl, refl)
apply-callbacks a quiet = (refl, refl)

pub replay-callbacks :
    (rs : List Request) (a : Spec)
    → ((replay a rs).cb ≡ a.cb) × ((replay a rs).counters ≡ a.counters)
replay-callbacks [] a = (refl, refl)
replay-callbacks (r ∷ rs) a =
    let (cb, counters) = replay-callbacks rs (apply a r) in
    let (cb_one, counters_one) = apply-callbacks a r in (cb ∙ cb_one, counters ∙ counters_one)

-- A specification with an element was configured.
config_flag :
    (config : Option PipelineConfig) (es : List Element) (q : ℕ) (e : Element)
    → (config ≡ none → es ≡ [])
    → first_with es q ≡ some e
    → flag config ≡ 1
config_flag none es q e bare found = absurd (ground (arith, bare refl, found))
config_flag (some config) es q e bare found = refl

-- After a history that brought an element, the server is configured, and its lookups and callbacks are
-- known.
pub brought-known :
    (s : Server) (cb : ℕ) (counters : CounterRead) (device_id q : ℕ) (rs : List Request)
    (e : Element)
    → Refines s (replay (fresh cb counters device_id) rs)
    → first_with (all_brought rs) q ≡ some e
    → (s.dm.has_p4info ≡ 1)
      × (s.dm.cb ≡ some cb)
      × (s.dm.get_counter_by_name ≡ some counters)
      × ((q' : ℕ) → get_element s.dm.id_map q' ≡ first_with (all_brought rs) q')
brought-known s cb counters device_id q rs e r known =
    let start : Spec = fresh cb counters device_id in
    let told : Spec = replay start rs in
    let brought : told.elements ≡ all_brought rs = replay-elements rs start in
    let is_set : flag told.config ≡ 1 =
      config_flag told.config told.elements q e (replay-IsBare rs start (λ none_taken. refl))
        (ap (λ es. first_with es q) brought ∙ known) in
    let (cb_is, counters_are) = replay-callbacks rs start in
    (
      r.has_p4info ∙ is_set,
      r.cb ∙ cb_is,
      r.counters ∙ counters_are,
      λ q'. r.elements q' ∙ ap (λ es. first_with es q') brought,
    )
