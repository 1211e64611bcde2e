-- ===== src/Api/Proxies/Forged.antt =====
-- internal/api/trustedproxy.go: what a client writes into X-Forwarded-For does not choose its address.
use alertloop.Base.{
  ℕ, ◌==◌, ◌++◌, Bool, true, false, Option, none, some, List, [], ◌∷◌, Text, ◌≡◌, refl, sym, ap,
  ◌∙◌, arith, is_empty, if◌then◌else◌, Bool-cases, inl, inr,
}
use alertloop.Strings.{trim_space}
use alertloop.Config.Checks.{Ip, IpNet}
use alertloop.Api.Proxies.{
  Request, split, in_first, backwards, trusts, walk, client_ip, host_only, peer_trusted,
}

split-some : (c : ℕ) (f : Text) → (p : Text) × (l : List Text) × (split c f ≡ p ∷ l)
unfolding split in_first
split-some c [] = ([], [], refl)
split-some c (d ∷ f) = elim (Bool-cases (d == c)) [
  | inl here ↦ ([], split c f, ground (arith, here))
  | inr further ↦ let (p, l, e) = split-some c f in (d ∷ p, l, ground (arith, further, e))
]

in_first-append :
    (d : ℕ) (p : Text) (l m n : List Text) → n ≡ p ∷ l → in_first d (n ++ m) ≡ in_first d n ++ m
unfolding in_first
in_first-append d p l m [] e = cc
in_first-append d p l m (q ∷ n) e = refl

split-append : (c : ℕ) (f g : Text) → split c (f ++ (c ∷ g)) ≡ split c f ++ split c g
unfolding split
split-append c [] g = ground arith
split-append c (d ∷ f) g = elim (Bool-cases (d == c)) [
  | inl here ↦ rw (here, split) (ap (λ r. [] ∷ r) (split-append c f g))
  | inr further ↦
      let (p, l, e) = split-some c f in
      rw (further, split)
        (ap (in_first d) (split-append c f g) ∙ in_first-append d p l (split c g) (split c f) e)
]

append_assoc : (l m n : List Text) → (l ++ m) ++ n ≡ l ++ (m ++ n)
append_assoc [] m n = refl
append_assoc (x ∷ l) m n = ap (λ r. x ∷ r) (append_assoc l m n)

append-nil : (l : List Text) → l ++ [] ≡ l
append-nil [] = refl
append-nil (x ∷ l) = ap (λ r. x ∷ r) (append-nil l)

backwards-append : (l m : List Text) → backwards (l ++ m) ≡ backwards m ++ backwards l
unfolding backwards
backwards-append [] m = sym (append-nil (backwards m))
backwards-append (x ∷ l) m =
    ap (λ r. r ++ (x ∷ [])) (backwards-append l m)
    ∙ append_assoc (backwards m) (backwards l) (x ∷ [])

given : (f g : Text) → is_empty (f ++ (b',' ∷ g)) ≡ false
unfolding is_empty
given [] g = refl
given (c ∷ f) g = refl

module _ (parse_ip : Text → Option Ip) (ip_text : Ip → Text)
    (split_host_port : Text → Option (Text × Text)) where
  -- the walk ends at one of these parts: an address that is not trusted, or no address
  unfoldable pub ends : List IpNet → List Text → Bool
  unfolding trusts trim_space
  ends nets [] = false
  ends nets (p ∷ l) =
      let rest = ends nets l in
      elim (parse_ip (trim_space p)) [
        | none ↦ true
        | some c ↦ if trusts nets (some c) then rest else true
      ]

  walk-append :
      (nets : List IpNet) (peer : Text) (l m n : List Text)
      → ends nets l ≡ true
      → walk parse_ip ip_text split_host_port nets peer (l ++ m)
        ≡ walk parse_ip ip_text split_host_port nets peer (l ++ n)
  unfolding ends walk
  walk-append nets peer [] m n h = cc
  walk-append nets peer (p ∷ l) m n h = ground (arith, walk-append nets peer l m n)

  through :
      (nets : List IpNet) (peer : Text) (f f' g : Text)
      → ends nets (backwards (split b',' g)) ≡ true
      → walk parse_ip ip_text split_host_port nets peer (backwards (split b',' (f ++ (b',' ∷ g))))
        ≡ walk parse_ip ip_text split_host_port nets peer
            (backwards (split b',' (f' ++ (b',' ∷ g))))
  through nets peer f f' g h =
      rw
        (
          split-append b',' f g,
          split-append b',' f' g,
          backwards-append (split b',' f) (split b',' g),
          backwards-append (split b',' f') (split b',' g),
        )
        (walk-append nets peer (backwards (split b',' g)) (backwards (split b',' f))
          (backwards (split b',' f')) h)

  -- What stands in X-Forwarded-For before a part that ends the walk from the right, with an
  -- untrusted address or none, does not change the address of the client.
  pub forged_part-ignored :
      (nets : List IpNet) (r : Request) (f f' g : Text)
      → ends nets (backwards (split b',' g)) ≡ true
      → client_ip parse_ip ip_text split_host_port nets
          (record r { forwarded_for = f ++ (b',' ∷ g) })
        ≡ client_ip parse_ip ip_text split_host_port nets
            (record r { forwarded_for = f' ++ (b',' ∷ g) })
  unfolding client_ip peer_trusted
  forged_part-ignored nets r f f' g h = ground (
    arith,
    through nets (host_only parse_ip ip_text split_host_port r.remote_addr) f f' g h,
    given f g,
    given f' g,
  )

  pub untrusted_peer-decides :
      (nets : List IpNet) (r : Request)
      → peer_trusted parse_ip ip_text split_host_port nets r ≡ false
      → client_ip parse_ip ip_text split_host_port nets r
        ≡ host_only parse_ip ip_text split_host_port r.remote_addr
  unfolding client_ip
  untrusted_peer-decides nets r h = ground arith
