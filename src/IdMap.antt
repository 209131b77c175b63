-- ===== src/IdMap.antt =====
-- utils/map.h and utils/map.c: the table from P4 ids to elements, open addressing without
-- wrap-around. A pointer to an element of the map is the number of its slot.
pub mod Probe
pub mod Lookup
pub mod Add
pub mod Capacity
pub mod Bucket
pub mod View
pub mod Walk
pub mod Args
pub mod Destroy
pub mod Used
use p4runtime_grpcpp.Base.{
  ℕ, zero, suc, ◌+◌, ◌-◌, ◌*◌, ◌%◌, List, [], ◌∷◌, ◌++◌, Option, none, some, Bytes, length, Run, ok,
  fault, null_pointer, overflow, leb, true, false, ◌==◌, if◌then◌else◌,
}

abbrev pub max_map_size : ℕ
max_map_size = 4096

abbrev pub max_hash_size : ℕ
max_hash_size = 1024

abbrev pub redundancy_map : ℕ
redundancy_map = 4

-- `argument_t args[10]` and `char name[50]`.
abbrev pub max_args : ℕ
max_args = 10

abbrev pub max_name : ℕ
max_name = 50

pub record Argument : Type 0 where
  pub id : ℕ
  pub name : Bytes
  pub bitwidth : ℕ

-- `args` holds the first `n_args` cells of the array, the only ones that are ever read.
pub record Element : Type 0 where
  pub value : Bytes
  pub key : ℕ
  pub args : List Argument

-- `data[i]`, at the slots below `max_map_size`.
pub record IdMap : Type 0 where
  pub slot : ℕ → Option Element

-- The slot where the probes for a key begin.
unfoldable pub home : ℕ → ℕ
home key = (key % max_hash_size) * redundancy_map

abbrev pub update {ℓ} : {A : Type ℓ} → (ℕ → Option A) → ℕ → A → ℕ → Option A
update f i v j = if i == j then some v else f j

-- `*elem = e` for the pointer to slot `i`.
abbrev pub store : IdMap → ℕ → Element → IdMap
store m i e = record { slot = update m.slot i e }

-- The loop of `get_element`, with `n` slots left from `i` on.
unfoldable pub get_from : ℕ → (ℕ → Option Element) → ℕ → ℕ → Option Element
get_from zero slot i key = none
get_from (suc n) slot i key = elim (slot i) [
  | none ↦ none
  | some e ↦ elim (e.key == key) [ true ↦ some e | false ↦ get_from n slot (suc i) key ]
]

unfoldable pub get_element : IdMap → ℕ → Option Element
get_element m key = get_from (max_map_size - home key) m.slot (home key) key

-- The loop of `add_element`: the first free slot from `i` on, of `n`.
unfoldable pub free_from : ℕ → (ℕ → Option Element) → ℕ → Option ℕ
free_from zero slot i = none
free_from (suc n) slot i = elim (slot i) [ none ↦ some i | some e ↦ free_from n slot (suc i) ]

abbrev pub new_element : ℕ → Bytes → Element
new_element key value = record { value = value; key = key; args = [] }

-- The result is the pointer that the C code returns, and the map that it leaves.
unfoldable pub add_element : IdMap → ℕ → Bytes → Option ℕ × IdMap
add_element m key value = elim (free_from (max_map_size - home key) m.slot (home key)) [
  | none ↦ (none, m)
  | some i ↦ (some i, store m i (new_element key value))
]

unfoldable pub init_map : IdMap
init_map = record { slot = λ i. none }

-- What `destroy_map` hands to `free`: at each slot that is used the name, then the element.
pub data Block : Type 0 where
  value_of element : ℕ → Block

unfoldable pub destroy_from : ℕ → (ℕ → Option Element) → ℕ → List Block
destroy_from zero slot i = []
destroy_from (suc n) slot i = elim (slot i) [
  | none ↦ destroy_from n slot (suc i)
  | some e ↦ value_of i ∷ element i ∷ destroy_from n slot (suc i)
]

unfoldable pub destroy_map : IdMap → List Block
destroy_map m = destroy_from max_map_size m.slot 0

unfoldable pub get_argument : List Argument → ℕ → Option Argument
get_argument [] id = none
get_argument (a ∷ args) id = if a.id == id then some a else get_argument args id

-- `strcpy(elem->args[elem->n_args].name, name); …; elem->n_args++`, the statements of
-- server/device_mgr.c that fill an element.
unfoldable pub push_argument : Element → Argument → Run Element
push_argument e a =
    if leb max_args (length e.args)
    then fault overflow
    else if leb max_name (length a.name)
    then fault overflow
    else ok (record e { args = e.args ++ a ∷ [] })
