-- ===== src/ConfigFile.antt =====
-- `struct ConfigFile` of server/device_mgr.c: the device configuration, kept in a temporary file.
pub mod RoundTrip
pub mod Short
pub mod Handles
use p4runtime_grpcpp.Base.{
  ℕ, zero, suc, ◌+◌, ◌-◌, ◌*◌, ◌/◌, Bool, true, false, List, [], ◌++◌, Option, none, some, Bytes,
  length, take, drop, leb, ◌==◌, if◌then◌else◌,
}

-- What the system answers: whether `tmpfile` gives a file, how many bytes `fwrite` gets to it, and
-- whether `fseek` works.
pub record Disk : Type 0 where
  pub tmpfile_ok : Bool
  pub room : ℕ
  pub fseek_ok : Bool

pub record FilePtr : Type 0 where
  pub content : Bytes
  pub position : ℕ

-- `fp` is null before the first configuration, and when `tmpfile` failed.
pub record ConfigFile : Type 0 where
  pub fp : Option FilePtr
  pub size : ℕ

abbrev pub no_config : ConfigFile
no_config = record { fp = none; size = 0 }

abbrev pub buffer_size : ℕ
buffer_size = 512

-- `change_config`; its status is `OK` in every case.
unfoldable pub change_config : Disk → Bytes → ConfigFile → ConfigFile
change_config disk config f =
    if disk.tmpfile_ok
    then record {
      fp =
          some
            (record { content = take disk.room config; position = length (take disk.room config) });
      size = length config;
    }
    else record f { fp = none }

-- `fread(buffer, n, 1, fp)`: the bytes, if all `n` are there; the position moves either way.
unfoldable pub fread : ℕ → FilePtr → Option Bytes × FilePtr
fread n f =
    let rest = drop f.position f.content in
    if leb n (length rest)
    then (some (take n rest), record f { position = f.position + n })
    else (none, record f { position = length f.content })

-- The loop that appends whole buffers: the configuration, the file, and whether all came.
unfoldable pub read_chunks : ℕ → FilePtr → Bytes → Bytes × FilePtr × Bool
read_chunks zero f config = (config, f, true)
read_chunks (suc iters) f config =
    let (chunk, g) = fread buffer_size f in
    elim chunk [ none ↦ (config, g, false) | some bytes ↦ read_chunks iters g (config ++ bytes) ]

-- What follows the loop: the remainder, unless something is missing.
unfoldable pub read_rest : ℕ → FilePtr → Bytes → Bytes × FilePtr
read_rest zero f config = (config, f)
read_rest (suc n) f config =
    let (chunk, g) = fread (suc n) f in
    elim chunk [ none ↦ (config, g) | some bytes ↦ (config ++ bytes, g) ]

unfoldable pub read_file : ℕ → FilePtr → Bytes → Bytes × FilePtr
read_file size f config =
    let iters = size / buffer_size in
    let remainder = size - iters * buffer_size in
    let (config', g, complete) = read_chunks iters (record f { position = 0 }) config in
    if complete then read_rest remainder g config' else (config', g)

-- `read_config`: what `p4_device_config` holds afterwards, and the file. Its status is `OK` in every
-- case.
unfoldable pub read_config : Disk → ConfigFile → Bytes → Bytes × ConfigFile
read_config disk f config = elim (f.fp) [
  | none ↦ (config, f)
  | some fp ↦
      let (config', fp') = read_file f.size fp config in
      if f.size == 0
      then (config, f)
      else if disk.fseek_ok
      then (config', record f { fp = some fp' })
      else (config, f)
]
