-- ===== src/Main.antt =====
-- sendip.c: the packet that `main` puts together, and the loop that finalizes it.
pub mod Length
pub mod Packet
pub mod Dispatch
use sendip.Base.{
  ℕ, zero, suc, ◌+◌, List, [], ◌∷◌, ◌++◌, Option, none, some, Bool, true, false, not, ◌==◌,
}
use sendip.Base.{if◌then◌else◌, length, get_elem?, set, drop}
use sendip.World.{World, Outcome, done, fault, stuck, exits, Exec, pure, ◌>>=◌}
use sendip.Pack.{Pack, ip, ip6, icmp, tcp, udp, frag, optchar, pack_bytes, Frame, next_hdr}
use sendip.Pack.Shape.{packs_bytes, hdrs_of}
use sendip.Ipv4
use sendip.Ipv6
use sendip.Icmp
use sendip.Tcp
use sendip.Udp
use sendip.Frag

-- `packet.data`: the packs and the data behind them.
pub packet_bytes : List Pack → List ℕ → List ℕ
packet_bytes packs data' = packs_bytes packs ++ data'

-- A pack that its own `finalize` changed stands at its place again.
abbrev pub placed : {H : Type 0} → (H → Pack) → ℕ → Bool × (List Pack × H) → Bool × List Pack
placed wrap i (ok, (headers, d)) = (ok, set headers i (wrap d))

abbrev pub returned : {A B : Type 0} → (A → B) → Outcome A → Exec B
returned f (done a) w = done (f a, w)
returned f fault w = fault
returned f stuck w = stuck
returned f exits w = exits

-- `e->mod->finalize(hdrs, headers, i, &d, e->pack)`
pub finalize_pack : Frame → List ℕ → List Pack → ℕ → List ℕ → Pack → Exec (Bool × List Pack)
finalize_pack f hdrs headers i rest (ip d) = (do
  r ← Ipv4.finalize (next_hdr f hdrs i) rest d
  pure (r.0, set headers i (ip r.1)))
finalize_pack f hdrs headers i rest (ip6 d) =
    let r = Ipv6.finalize f hdrs i (length rest) d in pure (r.0, set headers i (ip6 r.1))
finalize_pack f hdrs headers i rest (icmp d) =
    returned (placed icmp i) (Icmp.finalize hdrs headers i rest d)
finalize_pack f hdrs headers i rest (tcp d) = (do
  r ← Tcp.finalize f hdrs headers i rest d
  pure (placed tcp i r))
finalize_pack f hdrs headers i rest (udp d) =
    returned (placed udp i) (Udp.finalize f hdrs headers i rest d)
finalize_pack f hdrs headers i rest (frag d) =
    let r = Frag.finalize f hdrs i d in pure (r.0, set headers i (frag r.1))

-- "Finalize from inside out": the packs before `i` remain to be done. What the loop ignores is
-- whether `finalize` succeeded. `hdrs` is taken before the loop.
unfoldable pub finalize_from : Frame → List ℕ → ℕ → List Pack → List ℕ → Exec (List Pack)
finalize_from f hdrs zero headers data' = pure headers
finalize_from f hdrs (suc i) headers data' = elim (get_elem? headers i) [
  | none ↦ (λ w. fault)
  | some p ↦ (do
    r ← finalize_pack f hdrs headers i (packs_bytes (drop (suc i) headers) ++ data') p
    finalize_from f hdrs i r.1 data')
]

pub finalize_all : Frame → List Pack → List ℕ → Exec (List Pack)
finalize_all f packs data' = finalize_from f (hdrs_of packs) (length packs) packs data'

-- The address family, by the outermost module. None is an error, after which nothing is sent.
pub data Family : Type 0 where
  af_inet af_inet6 : Family

abbrev pub af_type : List Pack → Option (List ℕ) → Option Family
af_type [] none = none
af_type [] (some data') = some af_inet
af_type (p ∷ packs) data' =
    if optchar p == b'i' then some af_inet else if optchar p == b'6' then some af_inet6 else none
