-- ===== src/Geo/Custom/Agreement.antt =====
-- pkg/geo/custom.go: after every change of the mappings the trie holds what the map holds.
use open_gslb.Common.{
  ◌≡◌, refl, ap, ◌∙◌, subst, ◌⊎◌, inl, inr, Text, Option, none, some, false, List, [], ◌∷◌,
  Comparable, ◌==◌, ==_iff, text_eq, Bool-cases, Option-cases, if◌then◌else◌,
}
use open_gslb.Common.Table.{lookup, insert, erase, lookup-insert, lookup-erase}
use open_gslb.Geo.Custom.{
  CustomMapping, RegionEntry, Networks, CustomMappings, MappingError, entry_of, new_custom_mappings,
  load_each, load_from_config, without_old, add, remove_mapping, clear_mappings, as_configured,
}
use open_gslb.Geo.Custom.Runs.{
  IsTrie, IsSpelled, Op, do_add, do_remove, do_load, do_clear, step, run, IsCanonical, AreCanonical,
  CanonicalOps,
}

load_each-cases :
    {Trie : Type 0} (r : CustomMappings Trie ⊎ MappingError)
    → ((c : CustomMappings Trie) × (r ≡ inl c)) ⊎ ((e : MappingError) × (r ≡ inr e))
load_each-cases (inl c) = inl (c, refl)
load_each-cases (inr e) = inr (e, refl)

loaded_or :
    {Trie : Type 0} → CustomMappings Trie → CustomMappings Trie ⊎ MappingError → CustomMappings Trie
loaded_or c (inl loaded) = loaded
loaded_or c (inr e) = c

-- What the map says of a network.
abbrev pub mapped :
    {Network : Type 0} → Network → Option CustomMapping → Option (RegionEntry Network)
mapped n none = none
mapped n (some m) = some (entry_of n m)

module _ {Network : Type 0} {Trie : Type 0} ⦃cmp : Comparable Network⦄ (net : Networks Network Trie)
    (trie : IsTrie net) where
  -- The trie and the map say the same.
  unfoldable pub Agrees : CustomMappings Trie → Type 0
  Agrees c =
      (n : Network) → trie.held c.ranger n ≡ mapped n (lookup (net.network_string n) c.mappings)

module _ {Network : Type 0} {Trie : Type 0} ⦃cmp : Comparable Network⦄ (net : Networks Network Trie)
    (trie : IsTrie net) (spelled : IsSpelled net) where
  open trie use {held}

  same_text : (m n : Network) → (net.network_string m == net.network_string n) ≡ (m == n)
  same_text m n = elim (Bool-cases (m == n)) [
    | inl same ↦ rw same (
        (==_iff (net.network_string m) (net.network_string n)).1
          (ap net.network_string ((==_iff m n).0 same)))
    | inr other ↦ elim (Bool-cases (net.network_string m == net.network_string n)) [
      | inr apart ↦ rw other apart
      | inl equal ↦ cc (
          (==_iff m n).1
            (spelled m n ((==_iff (net.network_string m) (net.network_string n)).0 equal)))
    ]
  ]

  -- An entry that goes into the trie and the map at once.
  Agrees-insert :
      (c : CustomMappings Trie) (before : Trie) (n : Network) (m : CustomMapping) (next : Trie)
      → Agrees net trie c
      → ((k : Network) → (n == k) ≡ false → held before k ≡ held c.ranger k)
      → ((k : Network) → held next k ≡ (if n == k then some (entry_of n m) else held before k))
      → Agrees net trie
          (record { ranger = next; mappings = insert (net.network_string n) m c.mappings })
  unfolding Agrees
  Agrees-insert c before n m next agrees base puts k = elim (Bool-cases (n == k)) [
    | inl same ↦
        rw
          (
            puts k,
            same,
            lookup-insert (net.network_string n) (net.network_string k) m c.mappings,
            same_text n k,
            same,
          )
          (ap (λ j. some (entry_of j m)) ((==_iff n k).0 same))
    | inr other ↦
        rw
          (
            puts k,
            other,
            lookup-insert (net.network_string n) (net.network_string k) m c.mappings,
            same_text n k,
            other,
          )
          (base k other ∙ agrees k)
  ]

  without_old-held :
      (cidr : Text) (n : Network) (c : CustomMappings Trie) (k : Network)
      → (n == k) ≡ false
      → held (without_old net cidr n c) k ≡ held c.ranger k
  unfolding without_old
  without_old-held cidr n c k other = elim (Option-cases (lookup cidr c.mappings)) [
    | inl new ↦ rw (new, without_old) refl
    | inr (old, known) ↦
        let (next, removes, holds) = trie.held_remove n c.ranger in
        rw (known, without_old, removes) (holds k ∙ (rw other refl))
  ]

  add-Agrees :
      (m : CustomMapping) (c : CustomMappings Trie)
      → IsCanonical net m.cidr
      → Agrees net trie c
      → Agrees net trie (add net m c).0
  unfolding add
  add-Agrees m c canonical agrees = elim (Option-cases (net.parse_cidr m.cidr)) [
    | inl bad ↦ rw (bad, add) agrees
    | inr (n, parsed) ↦
        let (next, inserts, puts) = trie.held_insert (entry_of n m) (without_old net m.cidr n c) in
        rw (parsed, add, inserts)
          (subst (λ t. Agrees net trie (record { ranger = next; mappings = insert t m c.mappings }))
            (canonical n parsed)
            (Agrees-insert c (without_old net m.cidr n c) n m next agrees
              (λ k other. without_old-held m.cidr n c k other) puts))
  ]

  Agrees-erase :
      (c : CustomMappings Trie) (n : Network) (next : Trie)
      → Agrees net trie c
      → ((k : Network) → held next k ≡ (if n == k then none else held c.ranger k))
      → Agrees net trie
          (record { ranger = next; mappings = erase (net.network_string n) c.mappings })
  unfolding Agrees
  Agrees-erase c n next agrees holds k = elim (Bool-cases (n == k)) [
    | inl same ↦
        rw
          (
            holds k,
            same,
            lookup-erase (net.network_string n) (net.network_string k) c.mappings,
            same_text n k,
            same,
          )
          refl
    | inr other ↦
        rw
          (
            holds k,
            other,
            lookup-erase (net.network_string n) (net.network_string k) c.mappings,
            same_text n k,
            other,
          )
          (agrees k)
  ]

  remove_mapping-Agrees :
      (cidr : Text) (c : CustomMappings Trie)
      → IsCanonical net cidr
      → Agrees net trie c
      → Agrees net trie (remove_mapping net cidr c).0
  unfolding remove_mapping Agrees
  remove_mapping-Agrees cidr c canonical agrees = elim (Option-cases (net.parse_cidr cidr)) [
    | inl bad ↦ rw (bad, remove_mapping) agrees
    | inr (n, parsed) ↦ elim (Option-cases (lookup cidr c.mappings)) [
      | inl absent ↦ rw (parsed, remove_mapping, absent) agrees
      | inr (old, known) ↦
          let (next, removes, holds) = trie.held_remove n c.ranger in
          rw (parsed, remove_mapping, known, removes)
            (subst (λ t. Agrees net trie (record { ranger = next; mappings = erase t c.mappings }))
              (canonical n parsed) (Agrees-erase c n next agrees holds))
    ]
  ]

  load_each-Agrees :
      (ms : List CustomMapping) (c built : CustomMappings Trie)
      → AreCanonical net ms
      → Agrees net trie c
      → load_each net ms c ≡ inl built
      → Agrees net trie built
  unfolding load_each loaded_or
  load_each-Agrees [] c built canonical agrees h =
      subst (Agrees net trie) (ap (loaded_or c) h) agrees
  load_each-Agrees (m ∷ ms) c built canonical agrees h =
      elim (Option-cases (net.parse_cidr m.cidr)) [
        | inl bad ↦ cc (rw (bad, load_each) at h)
        | inr (n, parsed) ↦
            let configured = as_configured m in
            let (next, inserts, puts) = trie.held_insert (entry_of n configured) c.ranger in
            load_each-Agrees ms
              (record { ranger = next; mappings = insert m.cidr configured c.mappings }) built
              canonical.1
              (subst
                (λ t.
                  Agrees net trie
                    (record { ranger = next; mappings = insert t configured c.mappings }))
                (canonical.0 n parsed)
                (Agrees-insert c c.ranger n configured next agrees (λ k other. refl) puts))
              (rw (parsed, load_each, inserts) at h)
      ]

  pub new-Agrees : Agrees net trie (new_custom_mappings net)
  unfolding Agrees new_custom_mappings lookup
  new-Agrees n = trie.held_new n

  load_from_config-Agrees :
      (ms : List CustomMapping) (c : CustomMappings Trie)
      → AreCanonical net ms
      → Agrees net trie c
      → Agrees net trie (load_from_config net ms c).0
  unfolding load_from_config Agrees
  load_from_config-Agrees ms c canonical agrees =
      elim (load_each-cases (load_each net ms (new_custom_mappings net))) [
        | inl (built, e) ↦
            rw (load_from_config, e)
              (load_each-Agrees ms (new_custom_mappings net) built canonical new-Agrees e)
        | inr (bad, e) ↦ rw (load_from_config, e) agrees
      ]

  pub run-Agrees :
      (ops : List Op) (c : CustomMappings Trie)
      → CanonicalOps net ops
      → Agrees net trie c
      → Agrees net trie (run net c ops)
  unfolding run step clear_mappings new_custom_mappings
  run-Agrees [] c canonical agrees = agrees
  run-Agrees (do_add m ∷ ops) c canonical agrees =
      run-Agrees ops (add net m c).0 canonical.1 (add-Agrees m c canonical.0 agrees)
  run-Agrees (do_remove cidr ∷ ops) c canonical agrees =
      run-Agrees ops (remove_mapping net cidr c).0 canonical.1
        (remove_mapping-Agrees cidr c canonical.0 agrees)
  run-Agrees (do_load ms ∷ ops) c canonical agrees =
      run-Agrees ops (load_from_config net ms c).0 canonical.1
        (load_from_config-Agrees ms c canonical.0 agrees)
  run-Agrees (do_clear ∷ ops) c canonical agrees =
      run-Agrees ops (clear_mappings net c) canonical.1 new-Agrees
