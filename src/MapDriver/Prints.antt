-- ===== src/MapDriver/Prints.antt =====
-- What the program of utils/test_map.c prints and frees.
use p4runtime_grpcpp.Base.{
  ℕ, zero, suc, ◌+◌, ◌*◌, ◌≤◌, ◌<◌, ◌≡◌, refl, some, Bytes, arith, length, ◌==◌, Bool-cases, inl,
  inr, map,
}
use p4runtime_grpcpp.IdMap.Lookup.{get_element-init_map}
use p4runtime_grpcpp.IdMap.Used.{destroy_map-length}
use p4runtime_grpcpp.IdMap.{Element, IdMap, new_element, get_element}
use p4runtime_grpcpp.MapDriver.Holds.{multiples, added, two_added-Loaded, add_loop-Loaded}
use p4runtime_grpcpp.MapDriver.{Line, almafa, add_loop, print_loop, two_added, main_for}
use p4runtime_grpcpp.Pipeline.Load.{first_with}

-- The line of a lookup that finds the element.
abbrev pub found_line : Element → Line
found_line e = (e.key, some e)

first_with-multiples :
    (n i k : ℕ) (b : Bytes)
    → i ≤ k
    → k < i + n
    → first_with (multiples n i b) (k * 113) ≡ some (new_element (k * 113) b)
first_with-multiples zero i k b le lt = absurd (omega arith)
first_with-multiples (suc n) i k b le lt = elim (Bool-cases (i == k)) [
  | inl same ↦ let at : i ≡ k = ground arith in ground (arith, at)
  | inr other ↦
      ground (arith, other, first_with-multiples n (suc i) k b (ground arith) (omega arith))
]

-- Where each multiple is found, the loop prints it.
print_loop-found :
    (n i : ℕ) (b : Bytes) (m : IdMap)
    → ((k : ℕ) → i ≤ k → k < i + n → get_element m (k * 113) ≡ some (new_element (k * 113) b))
    → print_loop n i m ≡ map found_line (multiples n i b)
unfolding print_loop
print_loop-found zero i b m finds = refl
print_loop-found (suc n) i b m finds =
    let rest = print_loop-found n (suc i) b m (λ k le lt. finds k (omega arith) (omega arith)) in
    ground (arith, rest, finds i (omega arith) (omega arith))

-- With up to 3072 rounds of its two loops, of which the code asks for 3000, the program finds each
-- element that it added, under its key and with its value, and frees two blocks for each.
pub main_for-found :
    (rounds : ℕ)
    → rounds ≤ 3072
    → ((main_for rounds).0 ≡ map found_line (added rounds))
      × (length (main_for rounds).1 ≡ length (added rounds) * 2)
unfolding main_for
main_for-found rounds le =
    let (two, room, count) = two_added-Loaded rounds le in
    let (rest, more) = add_loop-Loaded rounds 0 almafa two_added two.probed room in
    let m : IdMap = add_loop rounds 0 almafa two_added in
    let lines = print_loop-found rounds 0 almafa m (λ k from to. ground (
      arith,
      rest.loads (k * 113),
      two.loads (k * 113),
      get_element-init_map (k * 113),
      first_with-multiples rounds 0 k almafa from to,
    )) in
    (
      ground (
        arith,
        lines,
        two.loads 112,
        two.loads 3321313131,
        get_element-init_map 112,
        get_element-init_map 3321313131,
      ),
      ground (arith, destroy_map-length m, more, count, length-multiples rounds 0 almafa),
    )
  where
    length-multiples : (n i : ℕ) (b : Bytes) → length (multiples n i b) ≡ n
    length-multiples zero i b = refl
    length-multiples (suc n) i b = ground (arith, length-multiples n (suc i) b)
