-- ===== src/Geo/Custom/Longest.antt =====
-- pkg/geo/custom.go: the mapping that an address gets, after any changes of the mappings whose networks
-- are written as `IPNet.String` writes them.
use open_gslb.Common.{
  ◌≤◌, ◌≡◌, refl, sym, ap, ◌∙◌, subst, inl, inr, Text, Option, none, some, some-injective, true,
  false, List, [], ◌∷◌, In, here, there, Comparable, text_eq, Bool-cases,
}
use open_gslb.Common.Table.{Table, lookup}
use open_gslb.Routing.Core.{Ip}
use open_gslb.Geo.Custom.{
  CustomMapping, RegionEntry, Networks, CustomMappings, entry_of, last_entry, new_custom_mappings,
  lookup_custom,
}
use open_gslb.Geo.Custom.Runs.{IsTrie, IsSpelled, Op, run, CanonicalOps}
use open_gslb.Geo.Custom.Agreement.{mapped, Agrees, new-Agrees, run-Agrees}

-- What an address gets of the map: nothing if no mapping of the map covers it, and else the data of a
-- mapping that covers it, with a prefix that no other such mapping exceeds.
abbrev pub IsLongest :
    {Network : Type 0} {Trie : Type 0} ⦃cmp : Comparable Network⦄ (net : Networks Network Trie)
    → IsTrie net
    → Ip
    → Table Text CustomMapping
    → Option (RegionEntry Network)
    → Type 0
IsLongest {Network} net trie ip mappings none =
    (n : Network) (m : CustomMapping)
    → lookup (net.network_string n) mappings ≡ some m
    → trie.covers n ip ≡ false
IsLongest {Network} net trie ip mappings (some e) =
    ((m : CustomMapping) × (lookup (net.network_string e.network) mappings ≡ some m)
      × (e ≡ entry_of e.network m))
    × (trie.covers e.network ip ≡ true)
    × ((n : Network) (m : CustomMapping)
        → lookup (net.network_string n) mappings ≡ some m
        → trie.covers n ip ≡ true
        → trie.prefix_length n ≤ trie.prefix_length e.network)

module _ {Network : Type 0} {Trie : Type 0} ⦃cmp : Comparable Network⦄ (net : Networks Network Trie)
    (trie : IsTrie net) (spelled : IsSpelled net) where
  open trie use {held, covers, prefix_length}

  mapped-some :
      (n : Network) (o : Option CustomMapping) (e : RegionEntry Network)
      → mapped n o ≡ some e
      → (m : CustomMapping) × (o ≡ some m) × (e ≡ entry_of n m)
  mapped-some n none e h = cc
  mapped-some n (some m) e h = (m, refl, sym (some-injective _ _ h))

  last_entry-In :
      (e : RegionEntry Network) (es : List (RegionEntry Network)) → In (last_entry e es) (e ∷ es)
  last_entry-In e [] = here
  last_entry-In e (f ∷ es) = there (last_entry-In f es)

  -- A mapping of the map that covers the address is among the entries of the trie.
  Contains : Ip → CustomMappings Trie → List (RegionEntry Network) → Type 0
  Contains ip c es =
      ((e : RegionEntry Network)
        → In e es
        → (held c.ranger e.network ≡ some e) × (covers e.network ip ≡ true))
      × ((n : Network) (e : RegionEntry Network)
          → held c.ranger n ≡ some e
          → covers n ip ≡ true
          → (e.network ≡ n) × In e es)
      × ((e f : RegionEntry Network) (fs : List (RegionEntry Network))
          → es ≡ f ∷ fs
          → In e es
          → prefix_length e.network ≤ prefix_length (last_entry f fs).network)

  chosen_entry : List (RegionEntry Network) → Option (RegionEntry Network)
  chosen_entry [] = none
  chosen_entry (e ∷ es) = some (last_entry e es)

  chosen_entry-IsLongest :
      (ip : Ip) (c : CustomMappings Trie) (es : List (RegionEntry Network))
      → Agrees net trie c
      → Contains ip c es
      → IsLongest net trie ip c.mappings (chosen_entry es)
  unfolding chosen_entry Agrees Contains entry_of
  chosen_entry-IsLongest ip c [] agrees (sound, complete, order) = λ n m at.
      (elim (Bool-cases (covers n ip)) [
        | inr apart ↦ apart
        | inl covered ↦
            elim ((complete n (entry_of n m) (agrees n ∙ ap (mapped n) at) covered).1) [ ]
      ])
  chosen_entry-IsLongest ip c (f ∷ fs) agrees (sound, complete, order) =
      let e = last_entry f fs in
      let (there_is, covered) = sound e (last_entry-In f fs) in
      (
        mapped-some e.network (lookup (net.network_string e.network) c.mappings) e
            (sym (agrees e.network) ∙ there_is),
        covered,
        λ n m at covers_too.
            (let (named, listed) =
                complete n (entry_of n m) (agrees n ∙ ap (mapped n) at) covers_too in
              order (entry_of n m) f fs refl listed),
      )

  lookup_custom-chosen :
      (ip : Ip) (c : CustomMappings Trie) (es : List (RegionEntry Network))
      → net.containing_networks ip c.ranger ≡ some es
      → lookup_custom net ip c ≡ chosen_entry es
  unfolding lookup_custom chosen_entry
  lookup_custom-chosen ip c [] e = rw (e, lookup_custom) refl
  lookup_custom-chosen ip c (f ∷ fs) e = rw (e, lookup_custom) refl

  lookup_custom-IsLongest :
      (ip : Ip) (c : CustomMappings Trie)
      → Agrees net trie c
      → IsLongest net trie ip c.mappings (lookup_custom net ip c)
  unfolding lookup_custom Contains chosen_entry
  lookup_custom-IsLongest ip c agrees =
      let (es, finds, sound, complete, order) = trie.containing ip c.ranger in
      subst (IsLongest net trie ip c.mappings) (sym (lookup_custom-chosen ip c es finds))
        (chosen_entry-IsLongest ip c es agrees (sound, complete, order))

  -- After any additions, removals, loads and clearings of mappings whose networks are written as they
  -- print, an address gets the mapping of the map with the longest prefix that covers it, and nothing
  -- only if no mapping covers it; if the trie does what its documentation says, and different networks
  -- print differently.
  pub run-IsLongest :
      (ops : List Op) (ip : Ip)
      → CanonicalOps net ops
      → IsLongest net trie ip
          (run net (new_custom_mappings net) ops).mappings
          (lookup_custom net ip (run net (new_custom_mappings net) ops))
  run-IsLongest ops ip canonical =
      lookup_custom-IsLongest ip (run net (new_custom_mappings net) ops) (
        run-Agrees net trie spelled ops (new_custom_mappings net) canonical
          (new-Agrees net trie spelled))
