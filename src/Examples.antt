-- ===== src/Examples.antt =====
-- Runs of the definitions on concrete input.
mod Blocks
mod Texts
mod Packets
mod Fields
mod Options
mod Extensions
mod Payloads
mod Records
use sendip.Base.{ℕ, List, [], ◌∷◌, none}
use sendip.World.{World}
use sendip.Pack.{Frame}
use sendip.Ipv6
use sendip.Ipv6.{Ip6Data}
use sendip.Tcp
use sendip.Tcp.Options.{TcpData}

-- Nothing cached, no file, and a clock that cannot be read.
abbrev pub idle : World
idle = record {
  junk = 0;
  root = [];
  xsubi = 0;
  rands = λ n. 7;
  drawn = 0;
  disk = λ p. none;
  now = none;
}

abbrev pub frame : Frame
frame = record { before = 0; past = 0 }

abbrev pub ip6_pack : Ip6Data
ip6_pack = Ipv6.initialize

abbrev pub tcp_pack : TcpData
tcp_pack = Tcp.initialize
