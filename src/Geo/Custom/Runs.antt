-- ===== src/Geo/Custom/Runs.antt =====
-- pkg/geo/custom.go: what the mappings take of the trie, and their changes in any order.
use open_gslb.Common.{
  ℕ, ◌≤◌, ◌≡◌, Text, Option, none, some, Bool, true, List, [], ◌∷◌, In, Comparable, ◌==◌, text_eq,
  if◌then◌else◌,
}
use open_gslb.Routing.Core.{Ip}
use open_gslb.Geo.Custom.{
  CustomMapping, RegionEntry, Networks, CustomMappings, last_entry, load_from_config, add,
  remove_mapping, clear_mappings,
}

-- What the documentation of the trie says: it holds one entry of a network, inserting one replaces it,
-- and the entries that contain an address come in the order of their prefix lengths.
pub record IsTrie {Network : Type 0} {Trie : Type 0} ⦃cmp : Comparable Network⦄
    (net : Networks Network Trie) : Type 0 where
  pub held : Trie → Network → Option (RegionEntry Network)
  pub covers : Network → Ip → Bool
  pub prefix_length : Network → ℕ
  pub held_new : (n : Network) → held net.new_trie n ≡ none
  pub held_insert :
      (e : RegionEntry Network) (s : Trie)
      → (next : Trie) × (net.trie_insert e s ≡ some next)
        × ((n : Network) → held next n ≡ (if e.network == n then some e else held s n))
  pub held_remove :
      (m : Network) (s : Trie)
      → (next : Trie) × (net.trie_remove m s ≡ some next)
        × ((n : Network) → held next n ≡ (if m == n then none else held s n))
  pub containing :
      (ip : Ip) (s : Trie)
      → (es : List (RegionEntry Network)) × (net.containing_networks ip s ≡ some es)
        × ((e : RegionEntry Network)
            → In e es
            → (held s e.network ≡ some e) × (covers e.network ip ≡ true))
        × ((n : Network) (e : RegionEntry Network)
            → held s n ≡ some e
            → covers n ip ≡ true
            → (e.network ≡ n) × In e es)
        × ((e f : RegionEntry Network) (fs : List (RegionEntry Network))
            → es ≡ f ∷ fs
            → In e es
            → prefix_length e.network ≤ prefix_length (last_entry f fs).network)

-- Different networks are written differently.
abbrev pub IsSpelled : {Network : Type 0} {Trie : Type 0} → Networks Network Trie → Type 0
IsSpelled {Network} net = (m n : Network) → net.network_string m ≡ net.network_string n → m ≡ n

pub data Op : Type 0 where
  do_add : CustomMapping → Op
  do_remove : Text → Op
  do_load : List CustomMapping → Op
  do_clear : Op

module _ {Network : Type 0} {Trie : Type 0} (net : Networks Network Trie) where
  unfoldable pub step : CustomMappings Trie → Op → CustomMappings Trie
  step c (do_add m) = (add net m c).0
  step c (do_remove cidr) = (remove_mapping net cidr c).0
  step c (do_load ms) = (load_from_config net ms c).0
  step c do_clear = clear_mappings net c

  unfoldable pub run : CustomMappings Trie → List Op → CustomMappings Trie
  run c [] = c
  run c (o ∷ ops) = run (step c o) ops

  -- A text that parses is the one that its network is written as.
  abbrev pub IsCanonical : Text → Type 0
  IsCanonical cidr = (n : Network) → net.parse_cidr cidr ≡ some n → net.network_string n ≡ cidr

  abbrev pub AreCanonical : List CustomMapping → Type 0
  AreCanonical [] = Unit
  AreCanonical (m ∷ ms) = IsCanonical m.cidr × AreCanonical ms

  abbrev pub CanonicalOp : Op → Type 0
  CanonicalOp (do_add m) = IsCanonical m.cidr
  CanonicalOp (do_remove cidr) = IsCanonical cidr
  CanonicalOp (do_load ms) = AreCanonical ms
  CanonicalOp do_clear = Unit

  abbrev pub CanonicalOps : List Op → Type 0
  CanonicalOps [] = Unit
  CanonicalOps (o ∷ ops) = CanonicalOp o × CanonicalOps ops
