-- ===== src/Digests/Ends.antt =====
-- Which digests of the data plane `dev_mgr_send_digest` of server/device_mgr.c deals with, and which end
-- the process.
use p4runtime_grpcpp.Base.{
  ℕ, zero, suc, ◌≡◌, ◌↔◌, refl, true, List, [], ◌∷◌, Option, none, some, Option-cases, Bool-cases,
  inl, inr, Bytes, ok, ◌>>=◌, >>=-eq-ok, arith,
}
use p4runtime_grpcpp.Device.{Device}
use p4runtime_grpcpp.DigestMap.{Digest, find}
use p4runtime_grpcpp.Digests.Send.{FieldsFit, send_digest-active, send_digest-inactive}
use p4runtime_grpcpp.Digests.{
  DigestField, P4Digest, DigestList, StreamWrite, mem, member_of, add_members, write_stream,
  dev_mgr_send_digest,
}
use p4runtime_grpcpp.Messages.{Platform}

-- If somebody asked for the digest: its fields fit, and the device keeps a stream that is there.
abbrev pub IsDelivered : Platform → List ℕ → Device → P4Digest → Type 0
IsDelivered p live dm digest =
    (d : Digest)
    → find dm.digest_map digest.field_list_name ≡ some d
    → d.active ≡ true
    → FieldsFit p digest.list_size digest.fields
      × ((stream : ℕ) × (dm.stream ≡ some stream) × (mem stream live ≡ true))

add_members-ends :
    (p : Platform) (n : ℕ) (fields : List DigestField) (members : List Bytes)
    → add_members p n fields ≡ ok members
    → FieldsFit p n fields
unfolding add_members member_of
add_members-ends p zero fields members run = tt
add_members-ends p (suc n) [] members run = cc
add_members-ends p (suc n) (df ∷ fields) members run =
    let (member, one, rest) = >>=-eq-ok (member_of p df) _ run in
    let (members', run', _) = >>=-eq-ok (add_members p n fields) _ rest in
    (ground (arith, one), add_members-ends p n fields members' run')

write_stream-ends :
    (live : List ℕ) (stream : Option ℕ) (message : DigestList) (r : List (StreamWrite DigestList))
    → write_stream live stream message ≡ ok r
    → (k : ℕ) × (stream ≡ some k) × (mem k live ≡ true)
unfolding write_stream
write_stream-ends live none message r run = absurd (ground arith)
write_stream-ends live (some k) message r run = (k, refl, ground arith)

-- A digest is dealt with exactly if nobody asked for it, or if its fields fit and the device keeps
-- a stream that is there.
pub send_digest-ends_iff :
    (p : Platform) (live : List ℕ) (now : ℕ) (dm : Device) (digest : P4Digest)
    → ((r : List (StreamWrite DigestList)) × (dev_mgr_send_digest p live now dm digest ≡ ok r))
      ↔ IsDelivered p live dm digest
unfolding dev_mgr_send_digest
send_digest-ends_iff p live now dm digest = (
  λ ended d known on.
      let run : (add_members p digest.list_size digest.fields >>= λ members.
      write_stream live dm.stream
        (record { digest_id = d.id; list_id = 0; members = members; timestamp = now }))
          ≡ ok ended.0 =
        ground (arith, known, on, ended.1) in
      let (members, fit, written) =
        >>=-eq-ok (add_members p digest.list_size digest.fields) _ run in
      (
        add_members-ends p digest.list_size digest.fields members fit,
        write_stream-ends live dm.stream _ ended.0 written,
      ),
  λ delivered. elim (Option-cases (find dm.digest_map digest.field_list_name)) [
    | inl missing ↦ ([], send_digest-inactive p live now dm digest (inl missing))
    | inr (d, known) ↦ elim (Bool-cases d.active) [
      | inr off ↦ ([], send_digest-inactive p live now dm digest (inr (d, known, off)))
      | inl on ↦
          let (fit, (stream, at, there)) = delivered d known on in
          (_, send_digest-active p live now dm digest d known on fit stream at there)
    ]
  ],
)
