-- ===== src/Manager/Merge.antt =====
-- `dev_mgr_write` of server/device_mgr.c where the updates of two requests come mixed, as from two
-- handlers that take turns.
use p4runtime_grpcpp.Base.{
  subst, ℕ, ◌≡◌, refl, sym, ap, ◌∙◌, List, [], ◌∷◌, ◌++◌, ok, >>=-eq-ok, Returns, arith,
}
use p4runtime_grpcpp.Device.{Device}
use p4runtime_grpcpp.DigestMap.{DigestMap, activate}
use p4runtime_grpcpp.Manager.Write.{sent-digests, activations, sent_by, sent, dev_mgr_write-sent}
use p4runtime_grpcpp.Manager.{dev_mgr_write}
use p4runtime_grpcpp.Messages.{Platform, Call}
use p4runtime_grpcpp.Proto.{
  Status, status_ok, Entity, UpdateType, Update, WriteRequest, continue_on_error,
}

-- `zs` is `xs` and `ys`, each in its order.
pub data Merge {ℓ} {A : Type ℓ} : List A → List A → List A → Type ℓ where
  nothing : Merge [] [] []
  left : {x : A} {xs ys zs : List A} → Merge xs ys zs → Merge (x ∷ xs) ys (x ∷ zs)
  right : {y : A} {xs ys zs : List A} → Merge xs ys zs → Merge xs (y ∷ ys) (y ∷ zs)

Merge-left_all {ℓ} :
    {A : Type ℓ} (ws xs ys zs : List A) → Merge xs ys zs → Merge (ws ++ xs) ys (ws ++ zs)
Merge-left_all [] xs ys zs m = m
Merge-left_all (a ∷ ws) xs ys zs m = left (Merge-left_all ws xs ys zs m)

Merge-right_all {ℓ} :
    {A : Type ℓ} (ws xs ys zs : List A) → Merge xs ys zs → Merge xs (ws ++ ys) (ws ++ zs)
Merge-right_all [] xs ys zs m = m
Merge-right_all (a ∷ ws) xs ys zs m = right (Merge-right_all ws xs ys zs m)

activate_comm : (ds : DigestMap) (a b : ℕ) → activate (activate ds a) b ≡ activate (activate ds b) a
unfolding activate
activate_comm [] a b = refl
activate_comm (d ∷ ds) a b = ground (arith, activate_comm ds a b)

-- What one update does to the digests.
abbrev switched : DigestMap → Entity → DigestMap
switched ds (Entity.digest_entry digest_id) = activate ds digest_id
switched ds _ = ds

activations-cons :
    (ds : DigestMap) (type : UpdateType) (entity : Entity) (us : List Update)
    → activations ds (record { type = type; entity = entity } ∷ us)
      ≡ activations (switched ds entity) us
activations-cons ds type entity us = ground arith

switched_comm :
    (ds : DigestMap) (d e : Entity) → switched (switched ds d) e ≡ switched (switched ds e) d
switched_comm ds (Entity.digest_entry a) (Entity.digest_entry b) = activate_comm ds a b
switched_comm ds d e = ground arith

-- A digest that is switched on before others is as one that is switched on after them.
activations-switched :
    (us : List Update) (ds : DigestMap) (entity : Entity)
    → activations (switched ds entity) us ≡ switched (activations ds us) entity
activations-switched [] ds entity = refl
activations-switched (u ∷ us) ds entity =
    activations-cons (switched ds entity) u.type u.entity us
    ∙ ap (λ x. activations x us) (switched_comm ds entity u.entity)
    ∙ activations-switched us (switched ds u.entity) entity
    ∙ ap (λ x. switched x entity) (sym (activations-cons ds u.type u.entity us))

activations-Merge :
    {xs ys zs : List Update} (ds : DigestMap)
    → Merge xs ys zs
    → activations ds zs ≡ activations (activations ds xs) ys
activations-Merge ds nothing = refl
activations-Merge {xs = x ∷ xs} {ys = ys} ds (left {zs = zs} m) =
    activations-cons ds x.type x.entity zs
    ∙ activations-Merge (switched ds x.entity) m
    ∙ ap (λ d. activations d ys) (sym (activations-cons ds x.type x.entity xs))
activations-Merge {xs = xs} {ys = y ∷ ys} ds (right {zs = zs} m) =
    activations-cons ds y.type y.entity zs
    ∙ activations-Merge (switched ds y.entity) m
    ∙ ap (λ d. activations d ys) (activations-switched xs ds y.entity)
    ∙ sym (activations-cons (activations ds xs) y.type y.entity ys)

sent-Merge :
    {xs ys zs : List Update} (p : Platform) (dm : Device) (cs ds : List Call)
    → Merge xs ys zs
    → sent p dm xs ≡ ok cs
    → sent p dm ys ≡ ok ds
    → Returns (sent p dm zs) (Merge cs ds)
sent-Merge p dm cs ds nothing run_l run_r =
    let e₁ : [] ≡ cs = ground arith in
    let e₂ : [] ≡ ds = ground arith in
    ([], refl, subst (λ c. Merge c ds []) e₁ (subst (λ d. Merge [] d []) e₂ nothing))
sent-Merge {xs = x ∷ xs} {ys = ys} p dm cs ds (left {zs = zs} m) run_l run_r =
    let (one, now, later) = >>=-eq-ok (sent_by p dm x) _ run_l in
    let (rest, run, is) = >>=-eq-ok (sent p dm xs) _ later in
    let (es, merged, m') = sent-Merge p dm rest ds m run run_r in
    let e : one ++ rest ≡ cs = ground arith in
    (
      one ++ es,
      ground (arith, now, merged),
      subst (λ c. Merge c ds (one ++ es)) e (Merge-left_all one rest ds es m'),
    )
sent-Merge {xs = xs} {ys = y ∷ ys} p dm cs ds (right {zs = zs} m) run_l run_r =
    let (one, now, later) = >>=-eq-ok (sent_by p dm y) _ run_r in
    let (rest, run, is) = >>=-eq-ok (sent p dm ys) _ later in
    let (es, merged, m') = sent-Merge p dm cs rest m run_l run in
    let e : one ++ rest ≡ ds = ground arith in
    (
      one ++ es,
      ground (arith, now, merged),
      subst (λ d. Merge cs d (one ++ es)) e (Merge-right_all one cs rest es m'),
    )

abbrev pub request_of : ℕ → List Update → WriteRequest
request_of device_id updates = record {
  device_id = device_id;
  atomicity = continue_on_error;
  updates = updates;
}

-- Where two writes that go on after errors come to an end one after the other, one write with the
-- updates of both, mixed so that each keeps its order, comes to an end as well: it answers `OK`,
-- leaves the device that the two leave, and sends the data plane the calls of both, each in its
-- order.
pub dev_mgr_write-Merge :
    (p : Platform) (dm dm₁ dm₂ : Device) (device_id : ℕ) (xs ys zs : List Update)
    (status₁ status₂ : Status) (cs ds : List Call)
    → Merge xs ys zs
    → dev_mgr_write p dm (request_of device_id xs) ≡ ok (status₁, dm₁, cs)
    → dev_mgr_write p dm₁ (request_of device_id ys) ≡ ok (status₂, dm₂, ds)
    → Returns
        (dev_mgr_write p dm (request_of device_id zs))
        λ r. (r.0 ≡ status_ok) × (r.1 ≡ dm₂) × Merge cs ds r.2
dev_mgr_write-Merge p dm dm₁ dm₂ device_id xs ys zs status₁ status₂ cs ds m first second =
    let (cs', sent_l, is_l) =
      >>=-eq-ok (sent p dm xs) _
        (sym (dev_mgr_write-sent p dm (request_of device_id xs) refl) ∙ first) in
    let (ds', sent_r, is_r) =
      >>=-eq-ok (sent p dm₁ ys) _
        (sym (dev_mgr_write-sent p dm₁ (request_of device_id ys) refl) ∙ second) in
    let after_xs : Device = record dm { digest_map = activations dm.digest_map xs } in
    let e₁ : after_xs ≡ dm₁ = ground arith in
    let e₂ : record dm₁ { digest_map = activations dm₁.digest_map ys } ≡ dm₂ = ground arith in
    let run_l : sent p dm xs ≡ ok cs = ground arith in
    let run_r : sent p dm ys ≡ ok ds =
      sym (sent-digests p dm (activations dm.digest_map xs) ys)
      ∙ ap (λ (d : Device). sent p d ys) e₁
      ∙ ground arith in
    let (es, merged, m') = sent-Merge p dm cs ds m run_l run_r in
    let whole : record dm { digest_map = activations dm.digest_map zs } ≡ dm₂ =
      ap (λ x. record dm { digest_map = x }) (activations-Merge dm.digest_map m)
      ∙ ap (λ (d : Device). record d { digest_map = activations d.digest_map ys }) e₁
      ∙ e₂ in
    (
      (status_ok, record dm { digest_map = activations dm.digest_map zs }, es),
      rw (dev_mgr_write-sent p dm (request_of device_id zs) refl, merged) refl,
      (refl, whole, m'),
    )
