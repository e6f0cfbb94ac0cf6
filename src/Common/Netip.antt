-- ===== src/Common/Netip.antt =====
-- What the module uses of the package `net/netip`. An address is its bytes, a prefix is opaque.
use Prim.Native.Nat.{ℕ}
use mathlib.Core.Bool.{Bool}
use mathlib.Core.Option.{Option}
use mathlib.Core.List.{List}
use open_gslb.Common.Tests.{nat_beq, if◌then◌else◌}
use open_gslb.Common.Equality.{Text}
use open_gslb.Common.Lists.{length}

-- `netip.ParsePrefix`, `Addr.Prefix`, `netip.PrefixFrom` and `Prefix.String`.
pub record Netip (Prefix : Type 0) : Type 0 where
  pub parse_prefix : Text → Option Prefix
  pub addr_prefix : List ℕ → ℕ → Option Prefix
  pub prefix_from : List ℕ → ℕ → Prefix
  pub prefix_string : Prefix → Text

-- `Addr.Is4`
abbrev pub is4 : List ℕ → Bool
is4 addr = nat_beq (length addr) 4

-- `Addr.BitLen`
abbrev pub bit_len : List ℕ → ℕ
bit_len addr = if is4 addr then 32 else 128
