-- ===== src/Server/Spec/Asked.antt =====
-- The digests that the writes of server/pi_server.cc ask for, against the ids that were asked for.
use p4runtime_grpcpp.Base.{ℕ, ◌≡◌, refl, ap, ◌∙◌, List, [], ◌∷◌, none, Option, some, Bytes, arith}
use p4runtime_grpcpp.DigestMap.Laws.{UniqueIds, found, find-activate, activate-UniqueIds}
use p4runtime_grpcpp.DigestMap.{Digest, DigestMap, find, activate}
use p4runtime_grpcpp.Manager.Write.{activations}
use p4runtime_grpcpp.Proto.{Entity, Update}
use p4runtime_grpcpp.Server.Spec.{asked_after, asked_digest}

-- One more id is asked for.
asked_digest-found :
    (ids : List ℕ) (digest_id : ℕ) (o : Option Digest)
    → found digest_id (asked_digest ids o) ≡ asked_digest (digest_id ∷ ids) o
asked_digest-found ids digest_id none = refl
asked_digest-found ids digest_id (some d) = ground arith

-- The updates of a write ask for their ids.
pub activations-asked :
    (us : List Update) (ds : DigestMap) (ids : List ℕ) (named : Bytes → Option Digest)
    → UniqueIds ds
    → ((name : Bytes) → find ds name ≡ asked_digest ids (named name))
    → UniqueIds (activations ds us)
      × ((name : Bytes)
          → find (activations ds us) name ≡ asked_digest (asked_after ids us) (named name))
activations-asked [] ds ids named unique finds = (unique, finds)
activations-asked (u ∷ us) ds ids named unique finds =
    update_asked u u.entity us ds ids named unique finds
      (λ ds' ids' unique' finds'. activations-asked us ds' ids' named unique' finds')
  where
    update_asked :
        (u : Update) (entity : Entity) (us : List Update) (ds : DigestMap) (ids : List ℕ)
        (named : Bytes → Option Digest)
        → UniqueIds ds
        → ((name : Bytes) → find ds name ≡ asked_digest ids (named name))
        → ((ds' : DigestMap) (ids' : List ℕ)
            → UniqueIds ds'
            → ((name : Bytes) → find ds' name ≡ asked_digest ids' (named name))
            → UniqueIds (activations ds' us)
              × ((name : Bytes)
                  → find (activations ds' us) name
                    ≡ asked_digest (asked_after ids' us) (named name)))
        → let us' = record u { entity = entity } ∷ us in
          UniqueIds (activations ds us')
          × ((name : Bytes)
              → find (activations ds us') name ≡ asked_digest (asked_after ids us') (named name))
    update_asked u (Entity.digest_entry digest_id) us ds ids named unique finds ih =
        ih (activate ds digest_id) (digest_id ∷ ids) (activate-UniqueIds ds digest_id unique)
          (λ name.
            find-activate ds digest_id name unique
            ∙ ap (found digest_id) (finds name)
            ∙ asked_digest-found ids digest_id (named name))
    update_asked u (Entity.table_entry entry) us ds ids named unique finds ih =
        ih ds ids unique finds
    update_asked u (Entity.counter_entry entry) us ds ids named unique finds ih =
        ih ds ids unique finds
    update_asked u Entity.direct_counter_entry us ds ids named unique finds ih =
        ih ds ids unique finds
    update_asked u Entity.other us ds ids named unique finds ih = ih ds ids unique finds
