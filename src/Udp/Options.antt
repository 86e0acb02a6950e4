-- ===== src/Udp/Options.antt =====
-- udp.c: what the options leave.
use sendip.Base.{ℕ, ◌≡◌, arith, List, Bool}
use sendip.World.{World, done}
use sendip.Pack.{IsUdp}
use sendip.Udp.{UdpData, do_opt}

-- An option whose value can be read succeeds; the fields of the header that it leaves fit their
-- widths if those before did, and no byte is added behind the header.
pub do_opt-IsUdp :
    (fuel : ℕ) (opt arg : List ℕ) (d d' : UdpData) (ok : Bool) (w w' : World)
    → IsUdp d.header
    → do_opt fuel opt arg d w ≡ done ((ok, d'), w')
    → IsUdp d'.header × (d'.tail ≡ d.tail)
unfolding do_opt
do_opt-IsUdp fuel opt arg d d' ok w w' h e = ground (arith, h)
