-- ===== src/Dns/Dropping.antt =====
-- Lists of servers under RegisterServer and DeregisterServer (pkg/dns/registry.go).
use mathlib.Core.List.{Perm}
use mathlib.Core.List.Perm
use open_gslb.Common.{
  ◌≡◌, refl, subst, Text, none, some, some-injective, List, [], ◌∷◌, arith, In, here, there, ◌==◌,
  ==_iff, text_eq, if◌then◌else◌, Bool-cases, Option-cases, inl, inr,
}
use open_gslb.Dns.Net.{Net, ServerInfo}
use open_gslb.Dns.Domains.{key_of, put_server, last_of, all_but_last, swap_out, drop_server}

module _ (net : Net) where
  -- Putting a server whose key is new, and then dropping that key: if the server's own key is the one
  -- it was put under, it is gone again, and otherwise it is not found.
  pub drop_server-put_server :
      (key : Text) (new : ServerInfo) (servers : List ServerInfo)
      → drop_server net key servers ≡ none
      → drop_server net key (put_server net key new servers)
        ≡ (if key_of net new == key then some servers else none)
  unfolding drop_server put_server swap_out
  drop_server-put_server key new [] absent = ground arith
  drop_server-put_server key new (s ∷ ss) absent = ground (arith, drop_server-put_server key new ss)

  last-first :
      (t : ServerInfo) (ss : List ServerInfo) → Perm (t ∷ ss) (last_of t ss ∷ all_but_last t ss)
  unfolding last_of all_but_last
  last-first t [] = Perm.refl (t ∷ [])
  last-first t (u ∷ ss) =
      Perm.trans (Perm.cons t (last-first u ss)) (Perm.swap (last_of u ss) t (all_but_last u ss))

  swap_out-Perm : (ss : List ServerInfo) → Perm ss (swap_out ss)
  unfolding swap_out
  swap_out-Perm [] = Perm.refl []
  swap_out-Perm (t ∷ ss) = last-first t ss

  -- What dropping a key leaves: all but one server with the key.
  abbrev pub IsDropped : Text → List ServerInfo → List ServerInfo → Type 0
  IsDropped key servers left = (s : ServerInfo) × (key_of net s ≡ key) × Perm servers (s ∷ left)

  pub drop_server-IsDropped :
      (key : Text) (servers left : List ServerInfo)
      → drop_server net key servers ≡ some left
      → IsDropped key servers left
  unfolding drop_server
  drop_server-IsDropped key [] left e = cc
  drop_server-IsDropped key (s ∷ ss) left e = elim (Bool-cases (key_of net s == key)) [
    | inl same ↦ (
      s,
      (==_iff (key_of net s) key).0 same,
      subst (λ l. Perm (s ∷ ss) (s ∷ l)) (some-injective _ _ (rw same at e))
          (Perm.cons s (swap_out-Perm ss)),
    )
    | inr other ↦ elim (Option-cases (drop_server net key ss)) [
      | inl absent ↦ cc (rw (other, absent) at e)
      | inr (rest, found) ↦
          let (t, k, p) = drop_server-IsDropped key ss rest found in
          (
            t,
            k,
            subst (λ l. Perm (s ∷ ss) (t ∷ l)) (some-injective _ _ (rw (other, found) at e))
                (Perm.trans (Perm.cons s p) (Perm.swap t s rest)),
          )
    ]
  ]

  pub drop_server-none :
      (key : Text) (servers : List ServerInfo)
      → ((s : ServerInfo) → In s servers → ¬ (key_of net s ≡ key))
      → drop_server net key servers ≡ none
  unfolding drop_server
  drop_server-none key [] absent = refl
  drop_server-none key (s ∷ ss) absent = elim (Bool-cases (key_of net s == key)) [
    | inl same ↦ absurd (absent s here ((==_iff (key_of net s) key).0 same))
    | inr other ↦ rw (other, drop_server-none key ss (λ t k. absent t (there k)))
  ]

  pub none-drop_server :
      (key : Text) (servers : List ServerInfo) (s : ServerInfo)
      → drop_server net key servers ≡ none
      → In s servers
      → ¬ (key_of net s ≡ key)
  unfolding drop_server
  none-drop_server key [] s e k h = elim k [ ]
  none-drop_server key (x ∷ ss) s e here same = cc (rw ((==_iff (key_of net x) key).1 same) at e)
  none-drop_server key (x ∷ ss) s e (there k) h = elim (Bool-cases (key_of net x == key)) [
    | inl same ↦ cc (rw same at e)
    | inr other ↦ none-drop_server key ss s (ground arith) k h
  ]
