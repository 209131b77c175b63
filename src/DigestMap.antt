-- ===== src/DigestMap.antt =====
-- `std::map<std::string, std::pair<uint64_t, bool>> digest_map` of server/device_mgr.h: the digests
-- by name, with their ids, and whether a controller has asked for them.
pub mod Laws
use p4runtime_grpcpp.Base.{
  ℕ, Bool, true, false, List, [], ◌∷◌, Option, none, some, Bytes, eq_bytes, lt_bytes, ◌==◌,
  if◌then◌else◌,
}

pub record Digest : Type 0 where
  pub name : Bytes
  pub id : ℕ
  pub active : Bool

-- In the order of the names.
abbrev pub DigestMap : Type 0
DigestMap = List Digest

-- `digest_map.find(name)`.
unfoldable pub find : DigestMap → Bytes → Option Digest
find [] name = none
find (d ∷ ds) name = if eq_bytes d.name name then some d else find ds name

-- `digest_map[name] = std::make_pair(id, active)`.
unfoldable pub assign : DigestMap → Digest → DigestMap
assign [] new = new ∷ []
assign (d ∷ ds) new =
    if eq_bytes d.name new.name
    then new ∷ ds
    else if lt_bytes new.name d.name
    then new ∷ d ∷ ds
    else d ∷ assign ds new

-- The loop of `dev_mgr_write` over the map: the first digest with the id is switched on.
unfoldable pub activate : DigestMap → ℕ → DigestMap
activate [] digest_id = []
activate (d ∷ ds) digest_id =
    if d.id == digest_id then record d { active = true } ∷ ds else d ∷ activate ds digest_id
