-- ===== src/Digests/Send.antt =====
-- `dev_mgr_send_digest` of server/device_mgr.c: which digests reach the controller, and with what.
use p4runtime_grpcpp.Base.{
  ℕ, zero, suc, ◌+◌, ◌*◌, ◌^◌, ◌≤◌, ◌<◌, ◌≡◌, ◌⊎◌, inl, inr, refl, true, false, List, [], ◌∷◌, none,
  some, Bytes, length, take, ok, fault, dangling, null_pointer, arith,
}
use p4runtime_grpcpp.Device.{Device}
use p4runtime_grpcpp.DigestMap.Laws.{UniqueIds, find-activate, found}
use p4runtime_grpcpp.DigestMap.{Digest, find, activate}
use p4runtime_grpcpp.Digests.{
  DigestField, P4Digest, htonl, byte_length, member_of, add_members, mem, write_stream,
  dev_mgr_send_digest,
}
use p4runtime_grpcpp.Manager.Write.{dev_mgr_write-sent}
use p4runtime_grpcpp.Manager.{dev_mgr_write}
use p4runtime_grpcpp.Messages.{Platform}
use p4runtime_grpcpp.Proto.{status_ok, Entity, UpdateType, continue_on_error, WriteRequest}

-- Two changes of the byte order cancel out.
pub htonl-htonl : (p : Platform) (w : ℕ) → w < 2 ^ 32 → htonl p (htonl p w) ≡ w
unfolding htonl
htonl-htonl p w h = ground arith

-- A length of `bits` bits in network byte order, which with 7 more fits 32 bits, takes `bits / 8`
-- bytes, rounded up.
byte_length-htonl :
    (p : Platform) (value : Bytes) (bits : ℕ)
    → bits + 7 < 2 ^ 32
    → let n = byte_length p (record { value = value; length = htonl p bits }) in
      (bits ≤ 8 * n) × (8 * n ≤ bits + 7)
unfolding byte_length
byte_length-htonl p value bits h = ground (arith, htonl-htonl p bits)

-- The fields that are sent are there, and each holds as many bytes as its length says.
abbrev pub FieldsFit : Platform → ℕ → List DigestField → Type 0
FieldsFit p zero fields = Unit {0}
FieldsFit p (suc n) [] = ⊥
FieldsFit p (suc n) (df ∷ fields) = (byte_length p df ≤ length df.value) × FieldsFit p n fields

abbrev pub members_of : Platform → List DigestField → List Bytes
members_of p [] = []
members_of p (df ∷ fields) = take (byte_length p df) df.value ∷ members_of p fields

add_members-FieldsFit :
    (p : Platform) (n : ℕ) (fields : List DigestField)
    → FieldsFit p n fields
    → add_members p n fields ≡ ok (members_of p (take n fields))
unfolding add_members member_of
add_members-FieldsFit p zero fields fit = refl
add_members-FieldsFit p (suc n) [] fit = absurd fit
add_members-FieldsFit p (suc n) (df ∷ fields) (one, rest) =
    ground (arith, add_members-FieldsFit p n fields rest)

module _ (p : Platform) (live : List ℕ) (now : ℕ) (dm : Device) (digest : P4Digest) where
  -- A digest that is not known or not switched on is dropped, whatever it holds and whether a
  -- stream is there or not.
  pub send_digest-inactive :
      (find dm.digest_map digest.field_list_name ≡ none)
        ⊎ ((d : Digest) × (find dm.digest_map digest.field_list_name ≡ some d) × (d.active ≡ false))
      → dev_mgr_send_digest p live now dm digest ≡ ok []
  unfolding dev_mgr_send_digest
  send_digest-inactive (inl missing) = ground (arith, missing)
  send_digest-inactive (inr (d, known, off)) = ground (arith, known, off)

  module _ (d : Digest) (known : find dm.digest_map digest.field_list_name ≡ some d)
      (on : d.active ≡ true) (fit : FieldsFit p digest.list_size digest.fields) where
    -- A digest that is switched on and whose fields fit goes to the device's stream, if that is
    -- there, under the id of the P4Info, with the first `list_size` fields cut to their lengths.
    pub send_digest-active :
        (stream : ℕ)
        → dm.stream ≡ some stream
        → mem stream live ≡ true
        → dev_mgr_send_digest p live now dm digest
          ≡ ok (
              record {
                stream = stream;
                response = record {
                  digest_id = d.id;
                  list_id = 0;
                  members = members_of p (take digest.list_size digest.fields);
                  timestamp = now;
                };
              }
              ∷ [])
    unfolding dev_mgr_send_digest write_stream
    send_digest-active stream at there =
        ground
          (arith, known, on, at, there, add_members-FieldsFit p digest.list_size digest.fields fit)

    -- If the handler of the stream has returned, it goes to an object that is gone.
    pub send_digest-dangling :
        (stream : ℕ)
        → dm.stream ≡ some stream
        → mem stream live ≡ false
        → dev_mgr_send_digest p live now dm digest ≡ fault dangling
    unfolding dev_mgr_send_digest write_stream
    send_digest-dangling stream at gone =
        ground
          (arith, known, on, at, gone, add_members-FieldsFit p digest.list_size digest.fields fit)

    -- A digest that is switched on and whose fields fit is written through a null pointer, if the
    -- device has no stream.
    send_digest-null :
        dm.stream ≡ none → dev_mgr_send_digest p live now dm digest ≡ fault null_pointer
    unfolding dev_mgr_send_digest write_stream
    send_digest-null at =
        ground (arith, known, on, at, add_members-FieldsFit p digest.list_size digest.fields fit)

abbrev pub subscription : ℕ → ℕ → WriteRequest
subscription device_id digest_id = record {
  device_id = device_id;
  atomicity = continue_on_error;
  updates = record { type = UpdateType.insert; entity = Entity.digest_entry digest_id } ∷ [];
}

-- Where the ids of the digests are unique, a request for a digest by its id switches that digest
-- on, and no other, and sends nothing to the data plane.
pub dev_mgr_write-subscription :
    (p : Platform) (dm : Device) (device_id digest_id : ℕ)
    → UniqueIds dm.digest_map
    → let after : Device = record dm { digest_map = activate dm.digest_map digest_id } in
      (dev_mgr_write p dm (subscription device_id digest_id) ≡ ok (status_ok, after, []))
      × ((name : Bytes) → find after.digest_map name ≡ found digest_id (find dm.digest_map name))
dev_mgr_write-subscription p dm device_id digest_id unique = (
  dev_mgr_write-sent p dm (subscription device_id digest_id) refl,
  λ name. find-activate dm.digest_map digest_id name unique,
)
