-- ===== src/IdMap/Capacity.antt =====
-- Room in the map of utils/map.c: an interface to conditions under which elements can be added one
-- after the other, and the condition that counts elements.
use p4runtime_grpcpp.Base.{ℕ, ◌+◌, ◌≤◌, ◌≡◌, List, ◌∷◌, length, All, some, arith, Bytes}
use p4runtime_grpcpp.IdMap.Add.{add_element-roomy, add_element_free, used, used-store}
use p4runtime_grpcpp.IdMap.{Element, IdMap, max_map_size, home, add_element, new_element, store}

-- Where there is room for some elements, the first of them finds a slot that is free, and when it is
-- stored, there is room for the others.
pub record Capacity : Type 1 where
  pub HasRoom : IdMap → List Element → Type 0
  pub next :
      (m : IdMap) (e : Element) (es : List Element) (value : Bytes)
      → HasRoom m (e ∷ es)
      → (i : ℕ) × (add_element m e.key value ≡ (some i, store m i (new_element e.key value)))
        × HasRoom (store m i e) es

-- There is room for `u` more elements from the home of each on.
abbrev pub Roomy : ℕ → List Element → Type 0
Roomy u = All (λ (e : Element). u + home e.key ≤ max_map_size)

abbrev pub CountsRoom : IdMap → List Element → Type 0
CountsRoom m es = (u : ℕ) × (used m + length es ≤ u) × Roomy u es

pub CountsRoom-next :
    (m : IdMap) (e : Element) (es : List Element) (value : Bytes)
    → CountsRoom m (e ∷ es)
    → (i : ℕ) × (add_element m e.key value ≡ (some i, store m i (new_element e.key value)))
      × CountsRoom (store m i e) es
CountsRoom-next m e es value (u, le, (here, rest)) =
    let (i, run) = add_element-roomy m e.key value (omega arith) in
    let free = (add_element_free m e.key i value _ run).2 in
    (i, run, (u, omega (arith, used-store m i e free), rest))

-- The slots from each home on are more than all the elements.
abbrev pub by_count : Capacity
by_count = record { HasRoom = CountsRoom; next = CountsRoom-next }
