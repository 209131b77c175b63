-- ===== src/DigestMap/Laws.antt =====
-- The laws of the digest map of server/device_mgr.h: assignment, activation and order.
use p4runtime_grpcpp.Base.{
  ℕ, ◌≡◌, ◌≢◌, inl, inr, refl, true, false, [], ◌∷◌, Option, none, some, Bytes, eq_bytes, lt_bytes,
  eq_bytes_iff, All, arith, ◌==◌, if◌then◌else◌, Bool-cases, subst,
}
use p4runtime_grpcpp.DigestMap.{Digest, DigestMap, find, assign, activate}

-- An assignment is seen under its name, and nowhere else.
pub find-assign :
    (ds : DigestMap) (new : Digest) (name : Bytes)
    → find (assign ds new) name ≡ (if eq_bytes new.name name then some new else find ds name)
unfolding find assign
find-assign [] new name = refl
find-assign (d ∷ ds) new name = ground (
  arith,
  eq_bytes_iff d.name new.name,
  eq_bytes_iff d.name name,
  eq_bytes_iff new.name name,
  find-assign ds new name,
)

pub find-name : (ds : DigestMap) (name : Bytes) (d : Digest) → find ds name ≡ some d → d.name ≡ name
unfolding find
find-name [] name d h = cc
find-name (e ∷ ds) name d h = ground (arith, eq_bytes_iff e.name name, find-name ds name d)

-- No two digests have the same id.
abbrev pub UniqueIds : DigestMap → Type 0
UniqueIds [] = Unit {0}
UniqueIds (d ∷ ds) = All (λ (e : Digest). e.id ≢ d.id) ds × UniqueIds ds

abbrev pub switch_on : ℕ → Digest → Digest
switch_on digest_id d = if d.id == digest_id then record d { active = true } else d

abbrev pub found : ℕ → Option Digest → Option Digest
found digest_id none = none
found digest_id (some d) = some (switch_on digest_id d)

found_other :
    (ds : DigestMap) (digest_id : ℕ) (name : Bytes)
    → All (λ (e : Digest). e.id ≢ digest_id) ds
    → found digest_id (find ds name) ≡ find ds name
unfolding find
found_other [] digest_id name h = refl
found_other (d ∷ ds) digest_id name h = ground (arith, h.0, found_other ds digest_id name h.1)

-- Where the ids are unique, activation switches the digest with the id on, and leaves the others.
pub find-activate :
    (ds : DigestMap) (digest_id : ℕ) (name : Bytes)
    → UniqueIds ds
    → find (activate ds digest_id) name ≡ found digest_id (find ds name)
unfolding find activate
find-activate [] digest_id name u = refl
find-activate (d ∷ ds) digest_id name u = elim (Bool-cases (d.id == digest_id)) [
  | inl same ↦
      let e : d.id ≡ digest_id = ground arith in
      let rest =
        found_other ds digest_id name (subst (λ k. All (λ (x : Digest). x.id ≢ k) ds) e u.0) in
      ground (arith, rest)
  | inr other ↦ ground (arith, find-activate ds digest_id name u.1)
]

pub lt_bytes_trans :
    (a b c : Bytes) → lt_bytes a b ≡ true → lt_bytes b c ≡ true → lt_bytes a c ≡ true
unfolding lt_bytes
lt_bytes_trans [] [] c h k = cc
lt_bytes_trans [] (y ∷ b) [] h k = cc
lt_bytes_trans [] (y ∷ b) (z ∷ c) h k = refl
lt_bytes_trans (x ∷ a) [] c h k = cc
lt_bytes_trans (x ∷ a) (y ∷ b) [] h k = cc
lt_bytes_trans (x ∷ a) (y ∷ b) (z ∷ c) h k = ground (arith, lt_bytes_trans a b c)

-- Of two names that differ and are not in order, the second comes first.
pub lt_bytes_total :
    (a b : Bytes) → eq_bytes a b ≡ false → lt_bytes b a ≡ false → lt_bytes a b ≡ true
unfolding lt_bytes eq_bytes
lt_bytes_total [] [] h k = cc
lt_bytes_total [] (y ∷ b) h k = refl
lt_bytes_total (x ∷ a) [] h k = cc
lt_bytes_total (x ∷ a) (y ∷ b) h k = ground (arith, lt_bytes_total a b)

abbrev pub AllAfter : Bytes → DigestMap → Type 0
AllAfter name = All (λ (e : Digest). lt_bytes name e.name ≡ true)

-- The names rise strictly along the map.
abbrev pub IsOrdered : DigestMap → Type 0
IsOrdered [] = Unit {0}
IsOrdered (d ∷ ds) = AllAfter d.name ds × IsOrdered ds

AllAfter-trans :
    (ds : DigestMap) (a b : Bytes) → lt_bytes a b ≡ true → AllAfter b ds → AllAfter a ds
AllAfter-trans [] a b h r = tt
AllAfter-trans (d ∷ ds) a b h r = (lt_bytes_trans a b d.name h r.0, AllAfter-trans ds a b h r.1)

AllAfter-assign :
    (ds : DigestMap) (new : Digest) (a : Bytes)
    → lt_bytes a new.name ≡ true
    → AllAfter a ds
    → AllAfter a (assign ds new)
unfolding assign
AllAfter-assign [] new a h r = (h, tt)
AllAfter-assign (d ∷ ds) new a h r = ground (arith, AllAfter-assign ds new a h r.1)

-- An assignment keeps the names in order.
pub assign-IsOrdered : (ds : DigestMap) (new : Digest) → IsOrdered ds → IsOrdered (assign ds new)
unfolding assign
assign-IsOrdered [] new o = (tt, tt)
assign-IsOrdered (d ∷ ds) new o = elim (Bool-cases (eq_bytes d.name new.name)) [
  | inl same ↦ rw same (subst (λ k. AllAfter k ds) ((eq_bytes_iff d.name new.name).0 same) o.0, o.1)
  | inr other ↦ elim (Bool-cases (lt_bytes new.name d.name)) [
    | inl before ↦
        rw (other, before) ((before, AllAfter-trans ds new.name d.name before o.0), (o.0, o.1))
    | inr after ↦
        rw (other, after)
          (
            AllAfter-assign ds new d.name (lt_bytes_total d.name new.name other after) o.0,
            assign-IsOrdered ds new o.1,
          )
  ]
]

AllAfter-activate :
    (ds : DigestMap) (digest_id : ℕ) (a : Bytes)
    → AllAfter a ds
    → AllAfter a (activate ds digest_id)
unfolding activate
AllAfter-activate [] digest_id a r = tt
AllAfter-activate (d ∷ ds) digest_id a r = ground (arith, AllAfter-activate ds digest_id a r.1)

pub activate-IsOrdered :
    (ds : DigestMap) (digest_id : ℕ) → IsOrdered ds → IsOrdered (activate ds digest_id)
unfolding activate
activate-IsOrdered [] digest_id o = tt
activate-IsOrdered (d ∷ ds) digest_id o =
    ground (arith, AllAfter-activate ds digest_id d.name o.0, activate-IsOrdered ds digest_id o.1)

-- Activation gives no digest another id.
activate-IsOther :
    (ds : DigestMap) (digest_id id : ℕ)
    → All (λ (e : Digest). e.id ≢ id) ds
    → All (λ (e : Digest). e.id ≢ id) (activate ds digest_id)
unfolding activate
activate-IsOther [] digest_id id all = tt
activate-IsOther (d ∷ ds) digest_id id all =
    ground (arith, all.0, all.1, activate-IsOther ds digest_id id all.1)

pub activate-UniqueIds :
    (ds : DigestMap) (digest_id : ℕ) → UniqueIds ds → UniqueIds (activate ds digest_id)
unfolding activate
activate-UniqueIds [] digest_id unique = tt
activate-UniqueIds (d ∷ ds) digest_id unique = elim (Bool-cases (d.id == digest_id)) [
  | inl same ↦ rw same (unique.0, unique.1)
  | inr other ↦
      rw other
        (activate-IsOther ds digest_id d.id unique.0, activate-UniqueIds ds digest_id unique.1)
]
