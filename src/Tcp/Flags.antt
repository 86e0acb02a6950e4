-- ===== src/Tcp/Flags.antt =====
-- tcp.c: what the options leave.
use sendip.Base.{ℕ, ◌≡◌, ◌≤◌, arith, List, Bool, length, drop}
use sendip.World.{World, done}
use sendip.Pack.{IsTcp}
use sendip.Tcp.Options.{TcpData}
use sendip.Tcp.Options.Fits.{tcp_option-Keeps}
use sendip.Tcp.{do_opt, flag_opt}

-- An option that succeeds leaves fields that fit their widths if those before did, and takes no
-- byte of the TCP options away.
pub do_opt-IsTcp :
    (fuel : ℕ) (opt arg : List ℕ) (d d' : TcpData) (ok : Bool) (w w' : World)
    → IsTcp d.header
    → do_opt fuel opt arg d w ≡ done ((ok, d'), w')
    → IsTcp d'.header × (length d.tail ≤ length d'.tail)
unfolding do_opt flag_opt
do_opt-IsTcp fuel opt arg d d' ok w w' h e =
    ground (arith, h, tcp_option-Keeps fuel (drop 2 opt) arg d d' ok w w')
