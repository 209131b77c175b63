-- ===== src/Digests.antt =====
-- `dev_mgr_send_digest` of server/device_mgr.c: a digest of the data plane goes to the controller.
pub mod Send
pub mod Ends
use p4runtime_grpcpp.Base.{
  ℕ, zero, suc, ◌+◌, ◌*◌, ◌/◌, ◌%◌, ◌^◌, Bool, false, List, [], ◌∷◌, Option, none, some, Bytes,
  length, take, Run, ok, fault, out_of_bounds, null_pointer, dangling, ◌>>=◌, leb, ◌==◌, ◌||◌,
  if◌then◌else◌,
}
use p4runtime_grpcpp.Device.{Device}
use p4runtime_grpcpp.DigestMap.{find}
use p4runtime_grpcpp.Messages.{Platform}

-- `struct p4_digest_field`: the array of its value, and its length in bits, in network byte order.
pub record DigestField : Type 0 where
  pub value : Bytes
  pub length : ℕ

-- `struct p4_digest`, and the fields that stand behind it in memory.
pub record P4Digest : Type 0 where
  pub field_list_name : Bytes
  pub list_size : ℕ
  pub fields : List DigestField

-- The message: one datum, a tuple with the members.
pub record DigestList : Type 0 where
  pub digest_id : ℕ
  pub list_id : ℕ
  pub members : List Bytes
  pub timestamp : ℕ

-- `htonl` on 32 bits.
unfoldable pub htonl : Platform → ℕ → ℕ
htonl p w =
    let b₀ = w % 256 in
    let b₁ = w / 2 ^ 8 % 256 in
    let b₂ = w / 2 ^ 16 % 256 in
    let b₃ = w / 2 ^ 24 % 256 in
    if p.big_endian then w % 2 ^ 32 else b₀ * 2 ^ 24 + b₁ * 2 ^ 16 + b₂ * 2 ^ 8 + b₃

-- `(htonl(df->length) + 7) / 8`, a 32-bit sum.
unfoldable pub byte_length : Platform → DigestField → ℕ
byte_length p df = (htonl p df.length + 7) % 2 ^ 32 / 8

-- `set_bitstring(df->value, bytes)`.
unfoldable pub member_of : Platform → DigestField → Run Bytes
member_of p df =
    if leb (byte_length p df) (length df.value)
    then ok (take (byte_length p df) df.value)
    else fault out_of_bounds

-- The loop over the fields, with `n` rounds left.
unfoldable pub add_members : Platform → ℕ → List DigestField → Run (List Bytes)
add_members p zero fields = ok []
add_members p (suc n) [] = fault out_of_bounds
add_members p (suc n) (df ∷ fields) = do
  member ← member_of p df
  members ← add_members p n fields
  ok (member ∷ members)

-- A message that went to a stream.
pub record StreamWrite {ℓ} (A : Type ℓ) : Type ℓ where
  pub stream : ℕ
  pub response : A

abbrev pub mem : ℕ → List ℕ → Bool
mem a [] = false
mem a (x ∷ xs) = x == a || mem a xs

-- `stream->Write(response)`: the stream object is there as long as its handler runs.
unfoldable pub write_stream {ℓ} : {A : Type ℓ} → List ℕ → Option ℕ → A → Run (List (StreamWrite A))
write_stream live none response = fault null_pointer
write_stream live (some stream) response =
    if mem stream live
    then ok (record { stream = stream; response = response } ∷ [])
    else fault dangling

-- `live` are the streams whose handlers run, `now` is the clock. A digest that nobody asked for is
-- dropped.
unfoldable pub dev_mgr_send_digest :
    Platform → List ℕ → ℕ → Device → P4Digest → Run (List (StreamWrite DigestList))
dev_mgr_send_digest p live now dm digest = elim (find dm.digest_map digest.field_list_name) [
  | none ↦ ok []
  | some d ↦
      if d.active
      then (do
        members ← add_members p digest.list_size digest.fields
        write_stream live dm.stream
            (record { digest_id = d.id; list_id = 0; members = members; timestamp = now }))
      else ok []
]
