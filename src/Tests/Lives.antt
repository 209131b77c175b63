-- ===== src/Tests/Lives.antt =====
-- The life of the server and of its streams, the loop of a lookup and the output operator, at
-- concrete values.
use p4runtime_grpcpp.Base.{
  ℕ, ◌≡◌, ◌≤◌, ◌-◌, ◌++◌, ◌↔◌, refl, false, List, [], ◌∷◌, Option, some, codes,
}
use p4runtime_grpcpp.Process.{
  LifeCall, call_run, call_get_port, call_shutdown, call_wait, call_cleanup,
}
use p4runtime_grpcpp.IdMap.Walk.{Walk, get_element-Walk}
use p4runtime_grpcpp.IdMap.{Element, home, get_element}
use p4runtime_grpcpp.Tests.{small_map}
use p4runtime_grpcpp.Uint128.Output.{Ostream, Adjustfield, Basefield, put, fill_up, put-print}
use p4runtime_grpcpp.Uint128.Print.{print}

-- A server that is started, asked, stopped and cleaned up, and a port that is asked for after that.
abbrev life : List LifeCall
life =
    call_run (some 50051)
    ∷ call_get_port
    ∷ call_shutdown
    ∷ call_wait
    ∷ call_cleanup
    ∷ call_get_port
    ∷ []

get_element-Walk_example :
    (n : ℕ) × (n ≤ 4096 - home 2)
    × ((k : ℕ) (found : Option Element)
        → Walk small_map 2 (home 2) k found ↔ ((k ≡ n) × (found ≡ get_element small_map 2)))
get_element-Walk_example = get_element-Walk small_map 2

-- A stream of width 6, filled with stars.
abbrev starry : Ostream
starry = record {
  written = codes "id ";
  fmt = record {
    base = Basefield.dec;
    adjust = Adjustfield.right;
    showbase = false;
    uppercase = false;
    width = 6;
    fill = 42;
  };
}

put-print_example : put starry (record { high = 1; low = 255 }) ≡ record starry {
  written = starry.written ++ (fill_up starry.fmt 2 ++ print (record { high = 1; low = 255 }));
}
put-print_example = put-print starry (record { high = 1; low = 255 }) refl refl refl
