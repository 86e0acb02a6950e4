-- ===== src/Frag/Options.antt =====
-- frag.c: what the options leave.
use sendip.Base.{ℕ, ◌≡◌, arith, List, Bool}
use sendip.World.{World, done}
use sendip.Protoname.{Protocols}
use sendip.Frag.{FragData, do_opt, set_nexthdr, frag_setoffset, frag_setflags}

pub do_opt-tail :
    (db : Protocols) (fuel : ℕ) (opt arg : List ℕ) (d d' : FragData) (ok : Bool) (w w' : World)
    → do_opt db fuel opt arg d w ≡ done ((ok, d'), w')
    → d'.tail ≡ d.tail
unfolding do_opt set_nexthdr frag_setoffset frag_setflags
do_opt-tail db fuel opt arg d d' ok w w' e = ground arith
