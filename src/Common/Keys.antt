-- ===== src/Common/Keys.antt =====
-- `fmt.Sprintf("%s:%d", address, port)` and `fmt.Sprintf("%s:%s:%d", service, address, port)`: the
-- keys of the maps of servers and of backends.
use mathlib.Core.List.{append_assoc}
use open_gslb.Common.Equality.{Text}
use open_gslb.Common.Decimal.{Lacks, itoa, atoi, itoa-Lacks, atoi-itoa}
use open_gslb.Common.Words.{word_mod}
use Prim.Native.Nat.{ℕ, ◌<◌}
use mathlib.Core.Path.{◌≡◌, refl, sym, ap, ◌∙◌, subst}
use mathlib.Core.Option.{some-injective}
use mathlib.Core.List.{[], ◌∷◌, ◌++◌}

unfoldable pub server_key : Text → ℕ → Text
server_key address port = address ++ b':' ∷ itoa port

unfoldable pub backend_key : Text → Text → ℕ → Text
unfolding server_key
backend_key service address port = service ++ b':' ∷ server_key address port

not-Lacks : (a b : Text) → ¬ Lacks b':' (a ++ b':' ∷ b)
not-Lacks [] b h = h.0 refl
not-Lacks (x ∷ a) b h = not-Lacks a b h.1

-- A text is cut in one way only at a colon behind which there is none.
cut_last_unique :
    (a b c d : Text)
    → Lacks b':' c
    → Lacks b':' d
    → a ++ b':' ∷ c ≡ b ++ b':' ∷ d
    → (a ≡ b) × (c ≡ d)
cut_last_unique [] [] c d hc hd e = (refl, cc)
cut_last_unique [] (y ∷ b) c d hc hd e = absurd (not-Lacks b d (subst (Lacks b':') (cc) hc))
cut_last_unique (x ∷ a) [] c d hc hd e = absurd (not-Lacks a c (subst (Lacks b':') (cc) hd))
cut_last_unique (x ∷ a) (y ∷ b) c d hc hd e =
    let r = cut_last_unique a b c d hc hd (cc) in (cc (r.0), r.1)

-- A text is cut in one way only at a colon before which there is none.
cut_first_unique :
    (a b c d : Text)
    → Lacks b':' a
    → Lacks b':' b
    → a ++ b':' ∷ c ≡ b ++ b':' ∷ d
    → (a ≡ b) × (c ≡ d)
cut_first_unique [] [] c d ha hb e = (refl, cc)
cut_first_unique [] (y ∷ b) c d ha hb e = absurd (hb.0 (cc))
cut_first_unique (x ∷ a) [] c d ha hb e = absurd (ha.0 (cc))
cut_first_unique (x ∷ a) (y ∷ b) c d ha hb e =
    let r = cut_first_unique a b c d ha.1 hb.1 (cc) in (cc (r.0), r.1)

itoa-injective : (m n : ℕ) → m < word_mod → n < word_mod → itoa m ≡ itoa n → m ≡ n
itoa-injective m n hm hn e = some-injective _ _ (sym (atoi-itoa m hm) ∙ ap atoi e ∙ atoi-itoa n hn)

-- The address and the port are read off a server's key, whatever the address holds.
pub server_key-injective :
    (a b : Text) (m n : ℕ)
    → m < word_mod
    → n < word_mod
    → server_key a m ≡ server_key b n
    → (a ≡ b) × (m ≡ n)
unfolding server_key
server_key-injective a b m n hm hn e =
    let r = cut_last_unique a b (itoa m) (itoa n) (itoa-Lacks m) (itoa-Lacks n) e in
    (r.0, itoa-injective m n hm hn r.1)

-- Two backends have one key only if they agree in service, address and port, if the services hold
-- no colon; the addresses may, as those of IPv6 do.
pub backend_key-injective :
    (s t a b : Text) (m n : ℕ)
    → Lacks b':' s
    → Lacks b':' t
    → m < word_mod
    → n < word_mod
    → backend_key s a m ≡ backend_key t b n
    → (s ≡ t) × (a ≡ b) × (m ≡ n)
unfolding backend_key
backend_key-injective s t a b m n hs ht hm hn e =
    let r = cut_first_unique s t (server_key a m) (server_key b n) hs ht e in
    let q = server_key-injective a b m n hm hn r.1 in (r.0, q.0, q.1)

-- With a colon in a service the key no longer tells backends apart.
pub backend_key-shift :
    (s t a : Text) (n : ℕ) → backend_key (s ++ b':' ∷ t) a n ≡ backend_key s (t ++ b':' ∷ a) n
unfolding backend_key server_key
backend_key-shift s t a n = simp append_assoc
