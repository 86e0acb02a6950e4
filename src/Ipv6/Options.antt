-- ===== src/Ipv6/Options.antt =====
-- ipv6.c: what the options leave.
use sendip.Base.{Option, ℕ, ◌≡◌, arith, List, Bool, true}
use sendip.World.{World, done}
use sendip.Protoname.{Protocols}
use sendip.Ipv6.{
  Ip6Data, do_opt, set_nxt, set_src, set_dst_opt, put_version, put_priority, put_class, put_ecn,
  put_label,
}

pub do_opt-tail :
    (db : Protocols) (inet_pton6 : List ℕ → Option (List ℕ)) (fuel : ℕ) (opt arg : List ℕ)
    (d d' : Ip6Data) (ok : Bool) (w w' : World)
    → do_opt db inet_pton6 fuel opt arg d w ≡ done ((ok, d'), w')
    → (d'.tail ≡ d.tail) × (ok ≡ true)
unfolding do_opt set_nxt set_src set_dst_opt put_version put_priority put_class put_ecn put_label
do_opt-tail db inet_pton6 fuel opt arg d d' ok w w' e = ground arith
