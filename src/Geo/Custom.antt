-- ===== src/Geo/Custom.antt =====
-- pkg/geo/custom.go: the mappings of networks to regions, once in a map under the text that was given,
-- and once in the trie of github.com/yl2chen/cidranger, which is a parameter.
pub mod Runs
mod Agreement
pub mod Longest
mod Tests
use open_gslb.Common.{
  ℕ, ◌⊎◌, inl, inr, Text, codes, Option, none, some, Bool, true, false, List, [], ◌∷◌, ◌++◌, length,
  In, Comparable, ◌==◌, text_eq, if◌then◌else◌,
}
use open_gslb.Common.Table.{Table, lookup, insert, erase}
use open_gslb.Routing.Core.{Ip}

pub record CustomMapping : Type 0 where
  pub cidr : Text
  pub region : Text
  pub comment : Text
  pub source : Text

pub record RegionEntry (Network : Type 0) : Type 0 where
  pub network : Network
  pub region : Text
  pub comment : Text
  pub source : Text

-- `net.ParseCIDR`, `IPNet.String`, and the methods of `cidranger.Ranger`; `none` is an error.
pub record Networks (Network : Type 0) (Trie : Type 0) : Type 0 where
  pub parse_cidr : Text → Option Network
  pub network_string : Network → Text
  pub new_trie : Trie
  pub trie_insert : RegionEntry Network → Trie → Option Trie
  pub trie_remove : Network → Trie → Option Trie
  pub containing_networks : Ip → Trie → Option (List (RegionEntry Network))

pub record CustomMappings (Trie : Type 0) : Type 0 where
  pub ranger : Trie
  pub mappings : Table Text CustomMapping

pub data MappingError : Type 0 where
  invalid_cidr insert_failed remove_failed mapping_not_found : Text → MappingError

unfoldable pub entry_of : {Network : Type 0} → Network → CustomMapping → RegionEntry Network
entry_of network m = record {
  network = network;
  region = m.region;
  comment = m.comment;
  source = m.source;
}

abbrev pub as_configured : CustomMapping → CustomMapping
as_configured m = record m { source = codes "config" }

abbrev pub last_entry :
    {Network : Type 0} → RegionEntry Network → List (RegionEntry Network) → RegionEntry Network
last_entry e [] = e
last_entry e (f ∷ es) = last_entry f es

module _ {Network : Type 0} {Trie : Type 0} (net : Networks Network Trie) where
  open net use {parse_cidr, network_string, new_trie, trie_insert, trie_remove, containing_networks}

  unfoldable pub new_custom_mappings : CustomMappings Trie
  new_custom_mappings = record { ranger = new_trie; mappings = [] }

  -- The loop of `LoadFromConfig` over what it builds.
  unfoldable pub load_each :
      List CustomMapping → CustomMappings Trie → CustomMappings Trie ⊎ MappingError
  unfolding entry_of
  load_each [] c = inl c
  load_each (m ∷ ms) c = elim (parse_cidr m.cidr) [
    | none ↦ inr (invalid_cidr m.cidr)
    | some network ↦ elim (trie_insert (entry_of network (as_configured m)) c.ranger) [
      | none ↦ inr (insert_failed m.cidr)
      | some next ↦
          load_each ms
            (record { ranger = next; mappings = insert m.cidr (as_configured m) c.mappings })
    ]
  ]

  -- An error leaves the mappings as they were.
  unfoldable pub load_from_config :
      List CustomMapping → CustomMappings Trie → CustomMappings Trie × Option MappingError
  unfolding load_each new_custom_mappings
  load_from_config ms c = elim (load_each ms new_custom_mappings) [
    | inl loaded ↦ (loaded, none)
    | inr e ↦ (c, some e)
  ]

  -- What `Add` inserts into: without the entry of a text that is there. An error of the removal is
  -- ignored.
  unfoldable pub without_old : Text → Network → CustomMappings Trie → Trie
  without_old cidr network c = elim (lookup cidr c.mappings) [
    | none ↦ c.ranger
    | some old ↦ elim (trie_remove network c.ranger) [ none ↦ c.ranger | some next ↦ next ]
  ]

  unfoldable pub add :
      CustomMapping → CustomMappings Trie → CustomMappings Trie × Option MappingError
  unfolding without_old entry_of
  add m c = elim (parse_cidr m.cidr) [
    | none ↦ (c, some (invalid_cidr m.cidr))
    | some network ↦ elim (trie_insert (entry_of network m) (without_old m.cidr network c)) [
      | none ↦ (record c { ranger = without_old m.cidr network c }, some (insert_failed m.cidr))
      | some next ↦ (record { ranger = next; mappings = insert m.cidr m c.mappings }, none)
    ]
  ]

  unfoldable pub remove_mapping :
      Text → CustomMappings Trie → CustomMappings Trie × Option MappingError
  remove_mapping cidr c = elim (parse_cidr cidr) [
    | none ↦ (c, some (invalid_cidr cidr))
    | some network ↦ elim (lookup cidr c.mappings) [
      | none ↦ (c, some (mapping_not_found cidr))
      | some old ↦ elim (trie_remove network c.ranger) [
        | none ↦ (c, some (remove_failed cidr))
        | some next ↦ (record { ranger = next; mappings = erase cidr c.mappings }, none)
      ]
    ]
  ]

  -- `Lookup`: the last of the networks that contain the address, which come from the least specific on.
  unfoldable pub lookup_custom : Ip → CustomMappings Trie → Option (RegionEntry Network)
  lookup_custom ip c = elim (containing_networks ip c.ranger) [
    | none ↦ none
    | some [] ↦ none
    | some (e ∷ es) ↦ some (last_entry e es)
  ]

  unfoldable pub clear_mappings : CustomMappings Trie → CustomMappings Trie
  clear_mappings c = record { ranger = new_trie; mappings = [] }

unfoldable pub get_mapping : {Trie : Type 0} → Text → CustomMappings Trie → Option CustomMapping
get_mapping cidr c = lookup cidr c.mappings

unfoldable pub count_mappings : {Trie : Type 0} → CustomMappings Trie → ℕ
count_mappings c = length c.mappings
