-- ===== src/Geo/Custom/Tests.antt =====
-- Mappings of pkg/geo/custom.go over a small trie: a network is a number and covers the addresses that
-- begin with it, and the trie is a table under the networks.
use open_gslb.Common.{
  ℕ, ◌≡◌, refl, sym, ap, subst, inl, inr, Text, codes, Option, none, some, some-injective, Bool,
  true, false, List, [], ◌∷◌, In, here, In-cons, nat_beq, nat_eq, nat_beq_iff, Bool-cases,
  Option-cases, ◌==◌, ==_iff, text_eq, arith, if◌then◌else◌,
}
use open_gslb.Common.Table.{Table, lookup, insert, erase, lookup-insert, lookup-erase}
use open_gslb.Routing.Core.{Ip}
use open_gslb.Geo.Custom.{
  CustomMapping, RegionEntry, Networks, entry_of, new_custom_mappings, lookup_custom,
}
use open_gslb.Geo.Custom.Runs.{IsTrie, IsSpelled, Op, do_add, do_remove, do_load, run}
use open_gslb.Geo.Custom.Agreement.{mapped}
use open_gslb.Geo.Custom.Longest.{IsLongest, run-IsLongest}

abbrev Trie : Type 0
Trie = Table ℕ CustomMapping

abbrev data_of : RegionEntry ℕ → CustomMapping
data_of e = record { cidr = []; region = e.region; comment = e.comment; source = e.source }

abbrev first_byte : Text → Option ℕ
first_byte [] = none
first_byte (b ∷ bs) = some b

abbrev held_first : Option ℕ → Trie → List (RegionEntry ℕ)
held_first none s = []
held_first (some b) s = elim (lookup b s) [ none ↦ [] | some m ↦ entry_of b m ∷ [] ]

abbrev single_bytes : Networks ℕ Trie
single_bytes = record {
  parse_cidr = first_byte;
  network_string = λ n. n ∷ [];
  new_trie = [];
  trie_insert = λ e s. some (insert e.network (data_of e) s);
  trie_remove = λ n s. some (erase n s);
  containing_networks = λ ip s. some (held_first (first_byte ip) s);
}

abbrev covers_first : ℕ → Ip → Bool
covers_first n [] = false
covers_first n (b ∷ bs) = nat_beq n b

abbrev held_in : Trie → ℕ → Option (RegionEntry ℕ)
held_in s n = mapped n (lookup n s)

held_insert_lem :
    (e : RegionEntry ℕ) (s : Trie) (n : ℕ)
    → held_in (insert e.network (data_of e) s) n ≡ (if e.network == n then some e else held_in s n)
unfolding entry_of
held_insert_lem e s n = elim (Bool-cases (e.network == n)) [
  | inl same ↦
      rw (lookup-insert e.network n (data_of e) s, same)
        (ap (λ k. some (entry_of k (data_of e))) (sym ((==_iff e.network n).0 same)))
  | inr other ↦ rw (lookup-insert e.network n (data_of e) s, other) refl
]

held_remove_lem :
    (m : ℕ) (s : Trie) (n : ℕ) → held_in (erase m s) n ≡ (if m == n then none else held_in s n)
held_remove_lem m s n = elim (Bool-cases (m == n)) [
  | inl same ↦ rw (lookup-erase m n s, same) refl
  | inr other ↦ rw (lookup-erase m n s, other) refl
]

first_sound :
    (ip : Ip) (s : Trie) (e : RegionEntry ℕ)
    → In e (held_first (first_byte ip) s)
    → (held_in s e.network ≡ some e) × (covers_first e.network ip ≡ true)
unfolding entry_of
first_sound [] s e m = elim m [ ]
first_sound (b ∷ bs) s e m = elim (Option-cases (lookup b s)) [
  | inl absent ↦ elim (rw (absent, held_first) at m) [ ]
  | inr (c, known) ↦ elim (In-cons (rw (known, held_first) at m)) [
    | inr later ↦ elim later [ ]
    | inl same ↦
        subst (λ x. (held_in s x.network ≡ some x) × (covers_first x.network (b ∷ bs) ≡ true))
          (sym same) (ap (mapped b) known, (nat_beq_iff b b).1 refl)
  ]
]

first_complete :
    (ip : Ip) (s : Trie) (n : ℕ) (e : RegionEntry ℕ)
    → held_in s n ≡ some e
    → covers_first n ip ≡ true
    → (e.network ≡ n) × In e (held_first (first_byte ip) s)
unfolding entry_of
first_complete [] s n e h c = cc
first_complete (b ∷ bs) s n e h c =
    let at = subst (λ k. mapped k (lookup k s) ≡ some e) ((nat_beq_iff n b).0 c) h in
    elim (Option-cases (lookup b s)) [
      | inl absent ↦ cc (rw absent at at)
      | inr (m, known) ↦
          let same = some-injective _ _ (rw known at at) in
          rw (known, held_first)
            (subst (λ x. (x.network ≡ n) × In x (entry_of b m ∷ [])) same
              (sym ((nat_beq_iff n b).0 c), here))
    ]

held_new_lem : (n : ℕ) → held_in [] n ≡ none
unfolding lookup
held_new_lem n = refl

abbrev single_trie : IsTrie single_bytes
single_trie = record {
  held = held_in;
  covers = covers_first;
  prefix_length = λ n. 8;
  held_new = held_new_lem;
  held_insert = λ e s. (insert e.network (data_of e) s, refl, held_insert_lem e s);
  held_remove = λ m s. (erase m s, refl, held_remove_lem m s);
  containing = λ ip s. (
    held_first (first_byte ip) s,
    refl,
    first_sound ip s,
    first_complete ip s,
    λ e f fs same m. omega arith,
  );
}

single_bytes-IsSpelled : IsSpelled single_bytes
single_bytes-IsSpelled m n h = cc h

abbrev mapping : ℕ → Text → CustomMapping
mapping n region = record { cidr = n ∷ []; region = region; comment = []; source = codes "api" }

abbrev changes : List Op
changes =
    do_load (mapping 10 (codes "eu") ∷ mapping 11 (codes "us") ∷ [])
    ∷ do_add (mapping 10 (codes "asia"))
    ∷ do_remove (11 ∷ [])
    ∷ []

spelled_out : (k : ℕ) → (n : ℕ) → first_byte (k ∷ []) ≡ some n → (n ∷ []) ≡ (k ∷ [])
spelled_out k n h = cc h

run-IsLongest_example :
    IsLongest single_bytes single_trie
      (10 ∷ 0 ∷ [])
      (run single_bytes (new_custom_mappings single_bytes) changes).mappings
      (lookup_custom single_bytes
        (10 ∷ 0 ∷ [])
        (run single_bytes (new_custom_mappings single_bytes) changes))
run-IsLongest_example =
    run-IsLongest single_bytes single_trie single_bytes-IsSpelled changes (10 ∷ 0 ∷ [])
      ((spelled_out 10, (spelled_out 11, tt)), (spelled_out 10, (spelled_out 11, tt)))
