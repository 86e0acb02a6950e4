-- ===== src/Icmp/Options.antt =====
-- icmp.c: what the options leave.
use sendip.Base.{ℕ, ◌≡◌, arith, List, Bool, true}
use sendip.World.{World, done}
use sendip.Pack.{IsIcmp}
use sendip.Icmp.{IcmpData, do_opt}

-- An option whose value can be read succeeds; the fields of the header that it leaves fit their
-- widths if those before did, and no byte is added behind the header.
pub do_opt-IsIcmp :
    (fuel : ℕ) (opt arg : List ℕ) (d d' : IcmpData) (ok : Bool) (w w' : World)
    → IsIcmp d.header
    → do_opt fuel opt arg d w ≡ done ((ok, d'), w')
    → IsIcmp d'.header × (d'.tail ≡ d.tail) × (ok ≡ true)
unfolding do_opt
do_opt-IsIcmp fuel opt arg d d' ok w w' h e = ground (arith, h)
