-- ===== src/Tests/Maps.antt =====
-- The map of utils/map.c and the 128-bit integers at concrete values.
use p4runtime_grpcpp.Base.{
  map, length, ◌*◌, take, drop, ℕ, ◌≢◌, ◌≡◌, refl, none, some, codes, arith, ◌↔◌, ◌<◌, ◌^◌, ◌-◌,
}
use p4runtime_grpcpp.Hex.{hex, hex_from, padded, read_hex}
use p4runtime_grpcpp.IdMap.{
  Element, IdMap, home, init_map, add_element, new_element, store, get_element, free_from,
}
use p4runtime_grpcpp.IdMap.Add.{IsAdded, add_element-IsAdded}
use p4runtime_grpcpp.IdMap.Lookup.{IsProbed, init_map-IsProbed, get_element-none_iff}
use p4runtime_grpcpp.MapDriver.{main}
use p4runtime_grpcpp.MapDriver.Holds.{added}
use p4runtime_grpcpp.MapDriver.Prints.{found_line, main_for-found}
use p4runtime_grpcpp.Uint128.{Uint128, add_assign}
use p4runtime_grpcpp.Uint128.Print.{print, read_hex-print}
use p4runtime_grpcpp.Uint128.Value.{IsUint128, value}

abbrev fwd_map : IdMap
fwd_map = store init_map 4 (new_element 1 (codes "fwd"))

fwd_added : add_element init_map 1 (codes "fwd") ≡ (some 4, fwd_map)
unfolding add_element free_from init_map home
fwd_added = refl

add_element-IsAdded_example : IsAdded init_map (new_element 1 (codes "fwd")) 4 fwd_map
add_element-IsAdded_example =
    add_element-IsAdded init_map 1 4 (codes "fwd") fwd_map init_map-IsProbed fwd_added

-- Two keys that are equal modulo 1024 begin at the same slot.
clash_added : (add_element fwd_map 1025 (codes "acl")).0 ≡ some 5
unfolding add_element free_from init_map home
clash_added = refl

home_small : home 1 ≡ 4
unfolding home
home_small = refl

fwd_map-IsProbed : IsProbed fwd_map
fwd_map-IsProbed =
    (add_element-IsAdded init_map 1 4 (codes "fwd") fwd_map init_map-IsProbed fwd_added).probed

get_element-none_iff_example :
    (get_element fwd_map 2 ≡ none)
    ↔ ((j : ℕ) (e : Element) → j < 4096 → fwd_map.slot j ≡ some e → e.key ≢ 2)
get_element-none_iff_example = get_element-none_iff fwd_map 2 fwd_map-IsProbed

-- The last number of the lower half, and one.
abbrev last_low : Uint128
last_low = record { high = 0; low = 2 ^ 64 - 1 }

abbrev one : Uint128
one = record { high = 0; low = 1 }

last_low-IsUint128 : IsUint128 last_low
last_low-IsUint128 = record { high = omega arith; low = omega arith }

one-IsUint128 : IsUint128 one
one-IsUint128 = record { high = omega arith; low = omega arith }

carries : add_assign last_low one ≡ record { high = 1; low = 0 }
unfolding add_assign
carries = refl

-- A high half, and a low half that needs its zeros.
abbrev wide : Uint128
wide = record { high = 10; low = 255 }

wide-IsUint128 : IsUint128 wide
wide-IsUint128 = record { high = omega arith; low = omega arith }

wide_printed : print wide ≡ codes "0xa00000000000000ff"
unfolding print hex hex_from padded
wide_printed = refl

read_hex-print_example :
    (take 2 (print wide) ≡ codes "0x") × (read_hex 0 (drop 2 (print wide)) ≡ value wide)
read_hex-print_example = read_hex-print wide wide-IsUint128

-- The program as it stands, with 3000 rounds.
main_for-found_example :
    (main.0 ≡ map found_line (added 3000)) × (length main.1 ≡ length (added 3000) * 2)
unfolding main
main_for-found_example = main_for-found 3000 (omega arith)
