-- ===== src/Lib.antt =====
-- A model of sendip, a program that builds network packets from its command line and sends them,
-- and the theorems that make the parts of it correct. Paths are from the repository's root.
--
-- The program. main (sendip.c) loads one module for each header of the packet. Each module keeps
-- a pack: the header and options as bytes, and the mask `modified` of the fields that the user set.
-- Options go to the modules' do_opt, which reads its argument by the functions of parseargs.c;
-- these in turn read lines of files by fargs.c. main then puts the packs and the data one behind
-- the other and calls the modules' finalize from the innermost header out. finalize fills the
-- fields that the user left alone, looks for the enclosing header by headers.c, and takes checksums
-- by csum.c.
--
-- The files:
--   Base: numbers, lists, words and bits that all the others share. Base.Bits and Base.Flags hold
--     the lemmas on bit operations and on the masks `modified`.
--     Base.Memory: writes into a block of bytes, and the bytes that realloc adds. Base.Xor: sums of
--     words modulo 2.
--   Libc: the functions of the C library that the code relies on for their results: strtoul,
--     strtol, atoi, strcmp, strchr, sscanf of an unsigned number.
--   World: what outlives a call (the file cache, the seed of addrand, the random numbers drawn) with
--     the disk and the clock as inputs, and the outcome of a call. `fault` is undefined behaviour,
--     `stuck` is a recursion that outran its fuel, `exits` a call of exit.
--   Csum: csum.c. Fargs: fargs.c. Headers: headers.c. Protoname: protoname.c.
--   Args: parseargs.c, with Args.Stream (str2val), Args.Random (addrand), Args.Value (timestamp and
--     opt2val), Args.Number (opt2intn and opt2inth), Args.Address (cidr2addr and opt2v4) and
--     Args.Split (parseargs and parsenargs).
--   Pack: sendip_module.h and the header structures of ipv4.h, ipv6.h, icmp.h, tcp.h, udp.h and
--     ipv6ext.h, as records, with their bytes in memory. Pack.Shape: a list of packs in place.
--   Pseudo: the IPv6 pseudo header that RFC 8200 describes.
--   Ipv4, Ipv6, Icmp, Tcp, Udp, Frag: ipv4.c, ipv6.c, icmp.c, tcp.c, udp.c and frag.c. Each has
--     initialize, do_opt and finalize under these names; do_opt of ipv4.c is in Ipv4.Options, with
--     its source routes and timestamps in Ipv4.Route, and the TCP options are in Tcp.Options.
--   Gre: gre.c, with the fields that a flag stands for in Gre.Layout and Gre.Words, its options in
--     Gre.Options and finalize in Gre.Finalize. Hop: hop.c, which is built for hop-by-hop and for
--     destination options, with the space for options in Hop.Space and what a
--     letter adds in Hop.Kinds. Routing: route.c, with the address
--     list in Routing.Addresses.
--   Crc: crc32.h, with the checksum by bits in Crc.Bitwise. Sctp: sctp.c, with do_opt in Sctp.Options,
--     the chunks in Sctp.Chunks and the checksum in Sctp.Checksum.
--   Esp: esp.c, with do_opt and finalize in Esp.Finalize; Esp.Layout: the packet that finalize
--     leaves; Esp.Xor: xorcrypto.c. Ah: ah.c, with its length field in Ah.Length.
--     Wesp: wesp.c; Wesp.Private: what finalize reads of the ESP pack behind.
--   Rip, Ripng: rip.c and ripng.c. Rip.Fields: NEXT_FIELD, which both define.
--   Main: sendip.c, where main puts the packet together and finalizes it. Main.Dispatch: the loop
--     that hands options to the modules, with its rounds in Main.Dispatch.Runs.
--   Examples: runs on concrete input.
--
-- State and operations. A pack is a record `SendipData H` of the header, the bytes behind it (the
-- options) and the mask. C writes through pointers into one buffer; here finalize returns the pack
-- and, as `headers`, the packs of the other modules, of which it changes the enclosing IPv4 header.
-- The packet behind a header is the list `rest`. Characters are numbers. The machine is
-- little-endian with an 8-byte pointer and an 8-byte unsigned long, as on Linux.
--
-- The modules that move bytes about in their block (gre.c, hop.c, sctp.c, esp.c) keep it as a list of
-- bytes, and a write behind its end is a `fault`. `heap`, an input, tells what realloc adds.
-- inet_pton for IPv6, inet_aton, the resolvers, /etc/protocols and load_crypto_module are parameters.
-- currentchunk, a static variable of sctp.c, stands in the pack: one SCTP header is modelled.
--
-- Bounds and fuel. Checksum theorems take blocks of at most 2 ^ 31 bytes, for which the sum fits its
-- 64 bits, and packets of at most 2 ^ 30 bytes of options and data. The folding loop of the checksum
-- recurses on the order of the numbers, and the loop of main on the number of packs: neither has
-- fuel. Fuel bounds two recursions that need not end in C: file arguments whose lines name files
-- again, and the draws of cidr2addr. A source route is read in as many rounds as its
-- text has bytes, and each round goes on by one. The theorems hold for every fuel. One step of fuel is
-- enough for an argument that is not a file argument.
--
-- Not modelled: BGP and NTP (the latter computes with floating-point numbers), and xorauth.c;
-- the options of main itself; gnugetopt.c, which is a copy of GNU getopt; dummy.c, a template that is
-- not built; loading modules, sockets, usage messages, warnings and dumps, which are input and output;
-- failures of malloc; big-endian machines, FreeBSD and Solaris. The finalizing loop of Main runs over
-- the IPv4, IPv6, ICMP, TCP, UDP and fragment modules, which keep the lengths
-- of their packs; the others stand on their own, among them esp.c, whose finalize shrinks its pack.
pub mod Ah
pub mod Wesp
pub mod Rip
pub mod Ripng
pub mod Base
pub mod Libc
pub mod World
pub mod Csum
pub mod Crc
pub mod Esp
pub mod Fargs
pub mod Gre
pub mod Args
pub mod Headers
pub mod Pack
pub mod Pseudo
pub mod Protoname
pub mod Ipv4
pub mod Udp
pub mod Hop
pub mod Icmp
pub mod Routing
pub mod Sctp
pub mod Tcp
pub mod Frag
pub mod Ipv6
pub mod Main
pub mod Examples
