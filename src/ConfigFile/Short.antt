-- ===== src/ConfigFile/Short.antt =====
-- What `read_config` gives back where the file is shorter than the configuration was.
use mathlib.Core.List.{append-nil, append_assoc}
use native.Mathlib.Decide.{dec_le}
use p4runtime_grpcpp.Base.{
  ℕ, zero, suc, ◌+◌, ◌-◌, ◌*◌, ◌/◌, ◌≤◌, ◌<◌, ◌≡◌, refl, ap, sym, ◌∙◌, true, false, List, [], ◌∷◌,
  ◌++◌, some, Bytes, length, length-take, take, drop, drop-drop, take-add, arith,
}
use p4runtime_grpcpp.ConfigFile.RoundTrip.{
  fread_short, read_chunks-suc, read_chunks_ok, read_config-file,
}
use p4runtime_grpcpp.ConfigFile.{
  Disk, FilePtr, ConfigFile, buffer_size, read_chunks, read_rest, read_file, read_config,
  change_config,
}

read_chunks_last :
    (n : ℕ) (f : FilePtr) (config : Bytes)
    → f.position ≤ length f.content
    → length f.content < f.position + buffer_size
    → read_chunks (suc n) f config ≡ (config, record f { position = length f.content }, false)
unfolding read_chunks
read_chunks_last n f config le lt = ground (arith, fread_short buffer_size f lt le)

-- The loop appends the whole buffers that are there, and then stops.
read_chunks_short :
    (n : ℕ) (f : FilePtr) (config : Bytes) (k : ℕ)
    → k ≡ (length f.content - f.position) / buffer_size * buffer_size
    → f.position ≤ length f.content
    → length f.content < f.position + n * buffer_size
    → ((read_chunks n f config).0 ≡ config ++ take k (drop f.position f.content))
      × ((read_chunks n f config).2 ≡ false)
read_chunks_short zero f config k e le lt = absurd (omega arith)
read_chunks_short (suc n) f config k e le lt =
    elim (dec_le (f.position + buffer_size) (length f.content)) [
      | no last ↦
          let none_left : k ≡ 0 = omega arith in
          rw (read_chunks_last n f config le (omega arith), none_left)
            (sym (append-nil config), refl)
      | yes more ↦
          let p : ℕ = f.position in
          let c : Bytes = f.content in
          let g : FilePtr = record f { position = p + buffer_size } in
          let chunk : Bytes = take buffer_size (drop p c) in
          let k' : ℕ = (length c - (p + buffer_size)) / buffer_size * buffer_size in
          let rest = read_chunks_short n g (config ++ chunk) k' refl more (omega arith) in
          let join : chunk ++ take k' (drop (p + buffer_size) c) ≡ take k (drop p c) =
            ap (λ x. chunk ++ take k' x) (sym (drop-drop p buffer_size (p + buffer_size) c refl))
            ∙ take-add buffer_size k' k (drop p c) (omega arith) in
          rw (read_chunks-suc n f config more)
            (rest.0 ∙ append_assoc config chunk _ ∙ ap (◌++◌ config) join, rest.1)
    ]

read_rest_short :
    (n : ℕ) (f : FilePtr) (config : Bytes)
    → f.position ≤ length f.content
    → length f.content < f.position + n
    → (read_rest n f config).0 ≡ config
unfolding read_rest
read_rest_short zero f config le lt = absurd (omega arith)
read_rest_short (suc n) f config le lt = ground (arith, fread_short (suc n) f lt le)

read_file_short :
    (size : ℕ) (f : FilePtr) (prefix : Bytes) (k : ℕ)
    → length f.content < size
    → k ≡ length f.content / buffer_size * buffer_size
    → (read_file size f prefix).0 ≡ prefix ++ take k f.content
unfolding read_file
read_file_short size f prefix k lt e =
    elim (dec_le (size / buffer_size * buffer_size) (length f.content)) [
      | no few ↦
          let stop =
            read_chunks_short (size / buffer_size) (record f { position = 0 }) prefix k
              (omega arith) (omega arith) (omega arith) in
          rw stop.1 stop.0
      | yes whole ↦
          let chunks =
            read_chunks_ok (size / buffer_size) (record f { position = 0 }) prefix k k (omega arith)
              (omega arith) (omega arith) in
          rw chunks (
            read_rest_short _ (record f { position = k }) (prefix ++ take k f.content) (omega arith)
              (omega arith))
    ]

take-take {ℓ} : {A : Type ℓ} (a b : ℕ) (xs : List A) → a ≤ b → take a (take b xs) ≡ take a xs
take-take zero b xs le = refl
take-take (suc a) zero xs le = absurd (omega arith)
take-take (suc a) (suc b) [] le = refl
take-take (suc a) (suc b) (x ∷ xs) le = ap (◌∷◌ x) (take-take a b xs (omega arith))

-- Where the temporary file is there and can be rewound, but had no room for the whole
-- configuration, the whole buffers come back that got to the file, and nothing else.
pub read_config-truncated :
    (disk disk' : Disk) (config prefix : Bytes) (f : ConfigFile)
    → disk.tmpfile_ok ≡ true
    → disk.room < length config
    → disk'.fseek_ok ≡ true
    → (read_config disk' (change_config disk config f) prefix).0
      ≡ prefix ++ take (disk.room / 512 * 512) config
unfolding change_config
read_config-truncated disk disk' config prefix f ready full seek =
    let stored : Bytes = take disk.room config in
    let fp : FilePtr = record { content = stored; position = length stored } in
    let long : length stored ≡ disk.room = omega (arith, length-take disk.room config) in
    let k : ℕ = disk.room / 512 * 512 in
    let short = read_file_short (length config) fp prefix k (omega arith) (omega arith) in
    let run =
      read_config-file disk' (record { fp = some fp; size = length config }) prefix _ fp _ seek refl
        (omega arith) refl in
    rw (ready, run) (short ∙ ap (◌++◌ prefix) (take-take k disk.room config (omega arith)))
