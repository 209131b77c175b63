-- ===== src/ConfigFile/RoundTrip.antt =====
-- What `change_config` stores `read_config` gives back, in buffers and a remainder.
use mathlib.Core.List.{append-nil, append_assoc}
use native.Mathlib.Decide.{ℕ_discrete}
use p4runtime_grpcpp.Base.{
  ℕ, zero, suc, ◌+◌, ◌-◌, ◌*◌, ◌/◌, ◌≤◌, ◌<◌, ◌≡◌, refl, ap, ap₂, sym, ◌∙◌, true, [], ◌++◌, none,
  some, Bytes, length, take, drop, length-drop, take-add, drop-drop, take_all, length-zero, ◌≢◌,
  arith,
}
use p4runtime_grpcpp.ConfigFile.{
  Disk, FilePtr, ConfigFile, buffer_size, change_config, fread, read_chunks, read_rest, read_file,
  read_config,
}

fread_ok :
    (n : ℕ) (f : FilePtr)
    → f.position + n ≤ length f.content
    → fread n f
      ≡ (some (take n (drop f.position f.content)), record f { position = f.position + n })
unfolding fread
fread_ok n f h = ground (arith, length-drop f.position f.content)

pub fread_short :
    (n : ℕ) (f : FilePtr)
    → length f.content < f.position + n
    → f.position ≤ length f.content
    → fread n f ≡ (none, record f { position = length f.content })
unfolding fread
fread_short n f h le = ground (arith, length-drop f.position f.content)

pub read_chunks-suc :
    (n : ℕ) (f : FilePtr) (config : Bytes)
    → f.position + buffer_size ≤ length f.content
    → read_chunks (suc n) f config
      ≡ read_chunks n
          (record f { position = f.position + buffer_size })
          (config ++ take buffer_size (drop f.position f.content))
unfolding read_chunks
read_chunks-suc n f config h = ground (arith, fread_ok buffer_size f h)

-- As long as the file has whole buffers, the loop appends them.
pub read_chunks_ok :
    (n : ℕ) (f : FilePtr) (config : Bytes) (k q : ℕ)
    → k ≡ n * buffer_size
    → q ≡ f.position + k
    → q ≤ length f.content
    → read_chunks n f config
      ≡ (config ++ take k (drop f.position f.content), record f { position = q }, true)
unfolding read_chunks
read_chunks_ok zero f config k q e e' h =
    let k0 : k ≡ 0 = omega arith in
    let qp : q ≡ f.position = omega arith in rw (k0, qp, append-nil config)
read_chunks_ok (suc n) f config k q e e' h =
    let p : ℕ = f.position in
    let c : Bytes = f.content in
    let g : FilePtr = record f { position = p + buffer_size } in
    let chunk : Bytes = take buffer_size (drop p c) in
    let k' : ℕ = n * buffer_size in
    let rest = read_chunks_ok n g (config ++ chunk) k' q refl (omega arith) h in
    let join : chunk ++ take k' (drop (p + buffer_size) c) ≡ take k (drop p c) =
      ap (λ x. chunk ++ take k' x) (sym (drop-drop p buffer_size (p + buffer_size) c refl))
      ∙ take-add buffer_size k' k (drop p c) (omega arith) in
    read_chunks-suc n f config (omega arith)
    ∙ rest
    ∙ ap (λ x. (x, record f { position = q }, true))
        (append_assoc config chunk _ ∙ ap (◌++◌ config) join)

read_rest_ok :
    (n : ℕ) (f : FilePtr) (config : Bytes)
    → f.position + n ≤ length f.content
    → read_rest n f config
      ≡ (config ++ take n (drop f.position f.content), record f { position = f.position + n })
unfolding read_rest
read_rest_ok zero f config h = rw (append-nil config) (ground arith)
read_rest_ok (suc n) f config h = ground (arith, fread_ok (suc n) f h)

-- The file holds the configuration, and its size is known.
pub record Holds (config : Bytes) (f : ConfigFile) : Type 0 where
  pub size : f.size ≡ length config
  pub file : (fp : FilePtr) × (f.fp ≡ some fp) × (fp.content ≡ config)

read_file_ok :
    (size : ℕ) (f : FilePtr) (prefix : Bytes)
    → length f.content ≡ size
    → read_file size f prefix ≡ (prefix ++ f.content, record f { position = size })
unfolding read_file
read_file_ok size f prefix e =
    let c : Bytes = f.content in
    let k : ℕ = size / buffer_size * buffer_size in
    let r : ℕ = size - k in
    let start : FilePtr = record f { position = 0 } in
    let g : FilePtr = record f { position = k } in
    let chunks =
      read_chunks_ok (size / buffer_size) start prefix k k refl (omega arith) (omega arith) in
    let rest = read_rest_ok r g (prefix ++ take k c) (omega arith) in
    let parts : take k c ++ take r (drop k c) ≡ c =
      take-add k r size c (omega arith) ∙ take_all size c (omega arith) in
    let whole : (prefix ++ take k c) ++ take r (drop k c) ≡ prefix ++ c =
      append_assoc prefix (take k c) _ ∙ ap (◌++◌ prefix) parts in
    let end : k + r ≡ size = omega arith in
    rw (chunks, read_file) (rest ∙ ap₂ (λ x y. (x, record f { position = y })) whole end)

-- Whatever the configuration, it is in the file afterwards, if the system keeps up.
pub change_config-Holds :
    (disk : Disk) (config : Bytes) (f : ConfigFile)
    → disk.tmpfile_ok ≡ true
    → length config ≤ disk.room
    → Holds config (change_config disk config f)
unfolding change_config
change_config-Holds disk config f ready room =
    rw ready (record { size = refl; file = (_, refl, take_all disk.room config room) })

read_config-empty :
    (disk : Disk) (f : ConfigFile) (prefix : Bytes)
    → f.size ≡ 0
    → read_config disk f prefix ≡ (prefix, f)
unfolding read_config
read_config-empty disk f prefix empty = ground arith

pub read_config-file :
    (disk : Disk) (f : ConfigFile) (prefix config : Bytes) (fp fp' : FilePtr)
    → disk.fseek_ok ≡ true
    → f.fp ≡ some fp
    → f.size ≢ 0
    → read_file f.size fp prefix ≡ (config, fp')
    → read_config disk f prefix ≡ (config, record f { fp = some fp' })
unfolding read_config
read_config-file disk f prefix config fp fp' ready at filled run = ground arith

-- If the file can be rewound, one that holds a configuration gives it back whole, behind what the
-- message held before, and holds it still.
pub read_config-Holds :
    (disk : Disk) (config prefix : Bytes) (f : ConfigFile)
    → disk.fseek_ok ≡ true
    → Holds config f
    → ((read_config disk f prefix).0 ≡ prefix ++ config)
      × Holds config (read_config disk f prefix).1
read_config-Holds disk config prefix f ready holds =
    let (fp, at, is) = holds.file in
    let run = read_file_ok f.size fp prefix (ap length is ∙ sym holds.size) in
    elim (ℕ_discrete f.size 0) [
      | yes empty ↦
          let nothing : config ≡ [] = length-zero config (sym holds.size ∙ empty) in
          rw (read_config-empty disk f prefix empty)
            (sym (append-nil prefix) ∙ ap (◌++◌ prefix) (sym nothing), holds)
      | no filled ↦
          rw (read_config-file disk f prefix _ fp _ ready at filled run)
            (ap (◌++◌ prefix) is, record { size = holds.size; file = (_, refl, is) })
    ]
