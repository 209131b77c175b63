-- ===== src/MapDriver.antt =====
-- utils/test_map.c: a program that fills the id map, looks up what it stored, and frees it.
pub mod Holds
pub mod Prints
use p4runtime_grpcpp.Base.{ℕ, zero, suc, ◌*◌, List, [], ◌∷◌, ◌++◌, Option, Bytes, codes}
use p4runtime_grpcpp.IdMap.{Element, IdMap, Block, init_map, add_element, get_element, destroy_map}

-- A line that is printed: the key, and the pointer that the lookup gave for `%s`.
abbrev pub Line : Type 0
Line = ℕ × Option Element

-- `b` and `k`.
abbrev pub almafa : Bytes
almafa = codes "almafa"

abbrev pub kortefa : Bytes
kortefa = codes "kortefa"

-- The loop that adds, with `n` rounds left from `i` on. The result of `add_element` is dropped.
unfoldable pub add_loop : ℕ → ℕ → Bytes → IdMap → IdMap
add_loop zero i b map = map
add_loop (suc n) i b map = add_loop n (suc i) b (add_element map (i * 113) b).1

-- The loop that prints.
unfoldable pub print_loop : ℕ → ℕ → IdMap → List Line
print_loop zero i map = []
print_loop (suc n) i map = (i * 113, get_element map (i * 113)) ∷ print_loop n (suc i) map

-- The map before the first loop.
unfoldable pub two_added : IdMap
two_added = (add_element (add_element init_map 112 almafa).1 3321313131 kortefa).1

-- `main`, with the number of rounds of both loops: the lines that are printed, and what is freed.
unfoldable pub main_for : ℕ → List Line × List Block
main_for rounds =
    let map = add_loop rounds 0 almafa two_added in
    (
      (112, get_element two_added 112)
          ∷ (3321313131, get_element two_added 3321313131)
          ∷ print_loop rounds 0 map,
      destroy_map map,
    )

unfoldable pub main : List Line × List Block
main = main_for 3000
