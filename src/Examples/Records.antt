-- ===== src/Examples/Records.antt =====
-- The authentication header, the RIP entries and WESP, on concrete input.
use sendip.Base.{ℕ, ◌≡◌, ◌≢◌, ◌⊎◌, refl, List, [], ◌∷◌, ◌++◌, Option, none, some, true, htonl}
use sendip.World.{done}
use sendip.Libc.{codes, strtoul, split_at}
use sendip.Protoname.{Protocols}
use sendip.Args.Number.{opt2intn, opt2inth, direct_intn, direct_inth, spaceless_inth}
use sendip.Args.Address.{opt2v4, direct_v4, second_fields, last_fields}
use sendip.Args.Value.{opt2val, direct_val}
use sendip.Args.Stream.{str2val}
use sendip.Ah
use sendip.Ah.{AhState}
use sendip.Ah.Length.{Measured, do_opt-Measured}
use sendip.Rip
use sendip.Rip.{RipEntry, RipPack}
use sendip.Rip.Fields.{nth_field, next_field, until_bar}
use sendip.Rip.Entries.{do_opt-metric}
use sendip.Ripng
use sendip.Ripng.{RipngPack}
use sendip.Wesp
use sendip.Wesp.{Behind}
use sendip.Examples.{idle}

abbrev no_db : Protocols
no_db = record { by_name = λ s. none; by_number = λ n. none }

abbrev heap : ℕ → ℕ
heap i = 165

abbrev fresh_ah : AhState
fresh_ah = record { pack = Ah.initialize; cryptoah = none }

abbrev signed_ah : AhState
signed_ah = record {
  pack = record {
    header = record { nexthdr = 0; hdrlen = 2; reserved = 0; spi = 0; seq_no = 0 };
    auth_data = codes "abcde";
    modified = 4;
    private = Ah.initialize.private;
  };
  cryptoah = none;
}

ah_run :
    Ah.do_opt no_db (λ s. none) heap 9 (codes "ad") (codes "abcde") fresh_ah idle
    ≡ done ((true, signed_ah), idle)
unfolding Ah.do_opt Ah.pack_opt Ah.put_auth_data opt2val direct_val str2val
ah_run = refl

do_opt-Measured_example : Measured signed_ah.pack
do_opt-Measured_example =
    do_opt-Measured no_db (λ s. none) heap 9 (codes "ad") (codes "abcde") fresh_ah signed_ah idle
      idle true refl refl ah_run

-- The user asks for a metric of 5.
abbrev routed : RipPack
routed = record {
  header = Rip.initialize.header;
  entries =
      record {
        address_family = 512;
        route_tag = 512;
        address = 16820416;
        subnet_mask = 16777215;
        next_hop = 0;
        metric = 268435456;
      }
      ∷ [];
  modified = 0;
}

rip_run :
    Rip.do_opt 9 (codes "re") (some (codes "||192.168.0.1|||5")) Rip.initialize idle
    ≡ done ((true, routed), idle)
unfolding Rip.do_opt Rip.read_entry next_field until_bar opt2intn direct_intn strtoul opt2v4
    direct_v4 second_fields last_fields split_at opt2inth spaceless_inth direct_inth
rip_run = refl

do_opt-metric_example :
    (e : RipEntry) × (true ≡ true)
    × (routed ≡ record Rip.initialize { entries = Rip.initialize.entries ++ (e ∷ []) })
    × (((nth_field 5 (codes "||192.168.0.1|||5") ≡ []) × (e.metric ≡ 0))
        ⊎ ((nth_field 5 (codes "||192.168.0.1|||5") ≢ []) × (e.metric ≡ htonl 16)))
do_opt-metric_example =
    do_opt-metric 9 (codes "re") (some (codes "||192.168.0.1|||5")) Rip.initialize routed idle idle
      true refl rip_run

abbrev resolver : List ℕ → Option (List ℕ)
resolver s = some (1 ∷ 2 ∷ 3 ∷ 4 ∷ 5 ∷ 6 ∷ 7 ∷ 8 ∷ 9 ∷ 10 ∷ 11 ∷ 12 ∷ 13 ∷ 14 ∷ 15 ∷ 16 ∷ [])

abbrev routed_ng : RipngPack
routed_ng = record {
  header = Ripng.initialize.header;
  entries =
      record {
        prefix = 1 ∷ 2 ∷ 3 ∷ 4 ∷ 5 ∷ 6 ∷ 7 ∷ 8 ∷ 9 ∷ 10 ∷ 11 ∷ 12 ∷ 13 ∷ 14 ∷ 15 ∷ 16 ∷ [];
        tag = 1792;
        len = 128;
        metric = 3;
      }
      ∷ [];
  modified = 0;
}
