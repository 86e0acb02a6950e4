-- ===== src/Examples/Options.antt =====
-- Options of the modules, on concrete input.
use sendip.Base.{◌≡◌, arith, [], ◌∷◌, some, none, false}
use sendip.Base.Flags.{mark}
use sendip.Libc.{codes}
use sendip.Protoname.{Protocols}
use sendip.Pack.{udp}
use sendip.Ipv4.Route.{strdup, route_loop}
use sendip.Base.{◌+◌, suc}
use sendip.Ipv4.Route.Rounds.{route_loop-rounds}
use sendip.Udp
use sendip.Udp.{UdpData}
use sendip.Main.Dispatch.{Scanned, Options}
use sendip.Main.Dispatch
use sendip.Main.Dispatch.Runs.{Runs}
use sendip.Examples.{idle}

route_loop-rounds_example :
    route_loop 9 (suc (5 + 7)) (strdup (codes "04:9")) 3 1 idle
    ≡ route_loop 9 (suc 5) (strdup (codes "04:9")) 3 1 idle
route_loop-rounds_example = route_loop-rounds 7 9 5 (strdup (codes "04:9")) 3 1 idle (omega arith)

abbrev no_db : Protocols
no_db = record { by_name = λ s. none; by_number = λ n. none }

abbrev one_udp : Options
one_udp = record { packs = udp Udp.initialize ∷ []; current = none; usage = false }

abbrev port_80 : Options
port_80 = record {
  packs =
      udp (record {
        header = record Udp.initialize.header { source = 20480 };
        tail = [];
        modified = mark 0 1;
      })
      ∷ [];
  current = some 0;
  usage = false;
}
