-- ===== src/Tests/Installs.antt =====
-- An entry on its way through server/, from the configuration to the data plane, at concrete values.
use p4runtime_grpcpp.Base.{◌≡◌, refl, [], ◌∷◌, ok, c_str, Returns, arith}
use p4runtime_grpcpp.IdMap.Bucket.{hashed_to-le}
use p4runtime_grpcpp.IdMap.{get_argument}
use p4runtime_grpcpp.Pipeline.Fresh.{IsSpread}
use p4runtime_grpcpp.Pipeline.Load.{elements_of}
use p4runtime_grpcpp.Proto.{exact, TableEntry, SetAction, status_ok}
use p4runtime_grpcpp.Server.Installs.{
  IsDescribed, described_message, started, insertion, configured-installs,
}
use p4runtime_grpcpp.Server.{set_config, write}
use p4runtime_grpcpp.Tests.{
  small_platform, small_info, small_config, good_disk, empty_server, two_values, fwd, set_port,
  small_action, ip_match, entry_with,
}

small_info-IsSpread : IsSpread small_info
unfolding c_str
small_info-IsSpread = record {
  tables = (record { count = omega arith; names = (omega arith, tt) }, tt);
  actions = (record { count = omega arith; names = (omega arith, tt) }, tt);
  buckets = λ b lt. omega (arith, hashed_to-le b (elements_of small_info));
}

abbrev pub entry : TableEntry
entry = entry_with (ip_match (exact (10 ∷ 0 ∷ 0 ∷ 1 ∷ [])) ∷ [])

pub entry-IsDescribed : IsDescribed small_platform (elements_of small_info) entry
unfolding c_str get_argument
entry-IsDescribed = record {
  table = fwd;
  has_table = refl;
  matches = ((_, refl, omega arith, omega arith), tt);
  supported = ((λ other. cc), tt);
  matches_fit = omega arith;
  act = small_action;
  is_action = refl;
  action_elem = set_port;
  has_action = refl;
  params = ((_, refl, omega arith, omega arith), tt);
  params_fit = omega arith;
}

configured-installs_example :
    Returns
      (set_config good_disk (started empty_server 77 two_values 1) 1 SetAction.verify small_config)
      λ r.
        write small_platform r.1 (insertion 1 entry)
        ≡ ok (
          status_ok,
          r.1,
          record {
            callee = 77;
            message =
                described_message small_platform (elements_of small_info) entry entry-IsDescribed;
          }
              ∷ [],
        )
configured-installs_example =
    configured-installs small_platform good_disk empty_server 77 two_values 1 1 1 SetAction.verify
      small_config entry refl small_info-IsSpread entry-IsDescribed
