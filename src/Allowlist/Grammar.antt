-- ===== src/Allowlist/Grammar.antt =====
-- internal/allowlist/allowlist.go: what `New` compiles, and what each kind of pattern permits.
use vsockd.Common.{
  ℕ, suc, ◌≤◌, ◌≡◌, ◌≢◌, refl, ◌∙◌, ◌↔◌, inl, inr, false, Option, none, some, List, [], ◌∷◌, ◌++◌,
  ℤ, pos, negsuc, arith, Bool-cases, All, drop, Outcome, ok, err, >>=-eq-ok, ok-injective, panic,
  no_fuel,
}
use vsockd.Go.Strings.{Bytes, equal, to_lower, contains_byte, has_prefix, is_empty}
use vsockd.Go.Strings.Laws.{to_lower_idem, contains_byte-to_lower, to_lower-drop}
use vsockd.Go.Net.{split_host_port, atoi}
use vsockd.Go.Net.Laws.{IsPlain, split_host_port-join}
use vsockd.Allowlist.Defs.{
  PatternKind, universal, any_host, host_suffix, exact, Pattern, Matcher, Error, checked_port,
  split_or_err, classify_host, parse_pattern, parse_all, new, at,
}

abbrev InRange : ℕ → Type 0
InRange n = (1 ≤ n) × (n ≤ 65535)

-- A host name as it is stored: not empty, without a star, in lower case.
pub record IsHost (h : Bytes) : Type 0 where
  pub non_empty : h ≢ []
  pub no_star : contains_byte h b'*' ≡ false
  pub lower : to_lower h ≡ h

abbrev FormedKind : PatternKind → Pattern → Type 0
FormedKind universal p = (p.suffix ≡ []) × (p.host ≡ []) × (p.port ≡ 0)
FormedKind any_host p = (p.suffix ≡ []) × (p.host ≡ []) × InRange p.port
FormedKind exact p = (p.suffix ≡ []) × IsHost p.host × InRange p.port
FormedKind host_suffix p =
    (p.suffix ≡ b'.' ∷ drop 1 p.suffix) × IsHost (drop 1 p.suffix) × (p.host ≡ []) × InRange p.port

abbrev pub WellFormed : Pattern → Type 0
WellFormed p = FormedKind p.kind p

checked_port-InRange : (v : Option ℤ) (n : ℕ) → checked_port v ≡ ok n → InRange n
checked_port-InRange none n h = absurd (ground arith)
checked_port-InRange (some (negsuc i)) n h = absurd (ground arith)
checked_port-InRange (some (pos i)) n h = ground arith

empty-of-is_empty : (s : Bytes) → is_empty s ≡ false → s ≢ []
empty-of-is_empty s h = ground arith

classify_host-WellFormed :
    (h : Bytes) (n : ℕ) (p : Pattern)
    → to_lower h ≡ h
    → InRange n
    → classify_host h n ≡ ok p
    → WellFormed p
unfolding classify_host
classify_host-WellFormed h n p l r e =
    ground (arith, empty-of-is_empty h, empty-of-is_empty (drop 2 h), to_lower-drop 2 h)

parse_pattern-WellFormed : (raw : Bytes) (p : Pattern) → parse_pattern raw ≡ ok p → WellFormed p
unfolding parse_pattern
parse_pattern-WellFormed [] p e = cc
parse_pattern-WellFormed (c ∷ cs) p e = elim (Bool-cases (equal (c ∷ cs) (b'*' ∷ []))) [
  | inl all ↦ ground arith
  | inr some' ↦
      let (hp, split, e') = >>=-eq-ok (split_or_err (split_host_port (c ∷ cs))) _ (rw some' at e) in
      let (n, port, e'') = >>=-eq-ok (checked_port (atoi hp.1)) _ e' in
      classify_host-WellFormed (to_lower hp.0) n p (to_lower_idem hp.0)
        (checked_port-InRange (atoi hp.1) n port) e''
]

-- The patterns are those that the texts parse to, in their order.
abbrev pub Compiles : List Bytes → List Pattern → Type 0
Compiles [] [] = Unit
Compiles (raw ∷ raws) (p ∷ ps) = (parse_pattern raw ≡ ok p) × Compiles raws ps
Compiles _ _ = ⊥

at-eq-ok : {A : Type 0} (i : ℕ) (r : Outcome Error A) {a : A} → at i r ≡ ok a → r ≡ ok a
at-eq-ok i (ok a) e = e
at-eq-ok i (err x) e = cc
at-eq-ok i panic e = e
at-eq-ok i no_fuel e = e

parse_all_sound :
    (i : ℕ) (raws : List Bytes) (ps : List Pattern) → parse_all i raws ≡ ok ps → Compiles raws ps
unfolding parse_all
parse_all_sound i [] ps e = rw (← ok-injective e) tt
parse_all_sound i (raw ∷ raws) ps e =
    let (p, first, e') = >>=-eq-ok (at i (parse_pattern raw)) _ e in
    let (qs, rest, e'') = >>=-eq-ok (parse_all (suc i) raws) _ e' in
    rw (← ok-injective e'')
      (at-eq-ok i (parse_pattern raw) first, parse_all_sound (suc i) raws qs rest)

parse_all_complete :
    (i : ℕ) (raws : List Bytes) (ps : List Pattern) → Compiles raws ps → parse_all i raws ≡ ok ps
unfolding parse_all
parse_all_complete i [] [] c = refl
parse_all_complete i [] (p ∷ ps) c = elim c [ ]
parse_all_complete i (raw ∷ raws) [] c = elim c [ ]
parse_all_complete i (raw ∷ raws) (p ∷ ps) c = rw (c.0, parse_all_complete (suc i) raws ps c.1)

new_sound :
    (raw : Bytes) (raws : List Bytes) (m : Matcher)
    → new (raw ∷ raws) ≡ ok m
    → (◌≢◌ {A = List Bytes} (raw ∷ raws) []) × Compiles (raw ∷ raws) m.patterns
unfolding new
new_sound raw raws m e =
    let (ps, all, e') = >>=-eq-ok (parse_all 0 (raw ∷ raws)) _ e in
    (λ c. cc, rw (← ok-injective e') (parse_all_sound 0 (raw ∷ raws) ps all))

-- `New` succeeds exactly on a list of patterns that is not empty and that all parse, and then holds
-- the patterns that they parse to, in their order.
pub new_iff :
    (raws : List Bytes) (m : Matcher) → (new raws ≡ ok m) ↔ ((raws ≢ []) × Compiles raws m.patterns)
new_iff [] m = (λ e. unfold new in cc, λ c. absurd (c.0 refl))
new_iff (raw ∷ raws) m =
    (new_sound raw raws m, λ c. unfold new in rw (parse_all_complete 0 (raw ∷ raws) m.patterns c.1))

Compiles-WellFormed : (raws : List Bytes) (ps : List Pattern) → Compiles raws ps → All WellFormed ps
Compiles-WellFormed [] [] c = tt
Compiles-WellFormed [] (p ∷ ps) c = elim c [ ]
Compiles-WellFormed (raw ∷ raws) [] c = elim c [ ]
Compiles-WellFormed (raw ∷ raws) (p ∷ ps) c =
    (parse_pattern-WellFormed raw p c.0, Compiles-WellFormed raws ps c.1)

-- Every pattern that `New` compiles has the fields of its kind and no others: the universal one has no
-- host, no suffix and the port 0; an any-host one only a port; an exact one a host and a port; and one for
-- sub-domains a suffix that begins with a dot, and a port. Such a port is in 1..65535, and the exact host,
-- or the suffix behind its dot, is not empty, has no star and is in lower case.
pub new-WellFormed : (raws : List Bytes) (m : Matcher) → new raws ≡ ok m → All WellFormed m.patterns
new-WellFormed raws m e = Compiles-WellFormed raws m.patterns ((new_iff raws m).0 e).1

no_star-equal : (h : Bytes) → contains_byte h b'*' ≡ false → equal h (b'*' ∷ []) ≡ false
unfolding equal contains_byte
no_star-equal [] e = refl
no_star-equal (c ∷ cs) e = ground arith

no_star-has_prefix :
    (h : Bytes) → contains_byte h b'*' ≡ false → has_prefix h (b'*' ∷ b'.' ∷ []) ≡ false
unfolding has_prefix contains_byte
no_star-has_prefix [] e = refl
no_star-has_prefix (c ∷ cs) e = ground arith

is_empty-to_lower : (h : Bytes) → is_empty (to_lower h) ≡ is_empty h
unfolding to_lower
is_empty-to_lower [] = refl
is_empty-to_lower (c ∷ cs) = refl

checked_port-ok : (n : ℕ) → 1 ≤ n → n ≤ 65535 → checked_port (some (pos n)) ≡ ok n
checked_port-ok n lo hi = ground arith

abbrev pub any_port : ℕ → Pattern
any_port n = record { kind = any_host; suffix = []; host = []; port = n }

abbrev pub exactly : Bytes → ℕ → Pattern
exactly h n = record { kind = exact; suffix = []; host = to_lower h; port = n }

abbrev pub below : Bytes → ℕ → Pattern
below rest n = record { kind = host_suffix; suffix = b'.' ∷ to_lower rest; host = []; port = n }

joined-ne-star : (c : ℕ) (cs t : Bytes) → equal (c ∷ (cs ++ b':' ∷ t)) (b'*' ∷ []) ≡ false
unfolding equal
joined-ne-star c [] t = ground arith
joined-ne-star c (d ∷ ds) t = ground arith

parse_pattern-joined :
    (h t : Bytes) (n : ℕ)
    → IsPlain h
    → IsPlain t
    → h ≢ []
    → atoi t ≡ some (pos n)
    → 1 ≤ n
    → n ≤ 65535
    → parse_pattern (h ++ b':' ∷ t) ≡ classify_host (to_lower h) n
unfolding parse_pattern
parse_pattern-joined [] t n p q ne a lo hi = absurd (ne refl)
parse_pattern-joined (c ∷ cs) t n p q ne a lo hi =
    rw (split_host_port-join (c ∷ cs) t p q, a, checked_port-ok n lo hi)
      (rw (joined-ne-star c cs t))

classify_host-exact :
    (h : Bytes) (n : ℕ)
    → h ≢ []
    → contains_byte h b'*' ≡ false
    → classify_host (to_lower h) n ≡ ok (exactly h n)
unfolding classify_host
classify_host-exact [] n ne ns = absurd (ne refl)
classify_host-exact (c ∷ cs) n ne ns =
    let ns' = contains_byte-to_lower (c ∷ cs) b'*' (omega arith) ∙ ns in
    rw (is_empty-to_lower (c ∷ cs), no_star-equal _ ns', no_star-has_prefix _ ns', ns')

classify_host-below :
    (h : Bytes) (n : ℕ)
    → h ≢ []
    → contains_byte h b'*' ≡ false
    → classify_host (to_lower (b'*' ∷ b'.' ∷ h)) n ≡ ok (below h n)
unfolding classify_host to_lower equal has_prefix
classify_host-below [] n ne ns = absurd (ne refl)
classify_host-below (c ∷ cs) n ne ns = ground (arith, contains_byte-to_lower (c ∷ cs) b'*')

starred-IsPlain : (h : Bytes) → IsPlain h → IsPlain (b'*' ∷ b'.' ∷ h)
unfolding contains_byte
starred-IsPlain h p = record { no_colon = p.no_colon; no_open = p.no_open; no_close = p.no_close }

star-IsPlain : IsPlain (b'*' ∷ [])
unfolding contains_byte
star-IsPlain = record { no_colon = refl; no_open = refl; no_close = refl }

-- A plain host name and a port, joined by a colon, compile to the exact pattern of that host in
-- lower case, and behind "*." to the pattern of its strict sub-domains.
pub parse_pattern-printed :
    (h t : Bytes) (n : ℕ)
    → IsPlain h
    → IsPlain t
    → h ≢ []
    → contains_byte h b'*' ≡ false
    → atoi t ≡ some (pos n)
    → 1 ≤ n
    → n ≤ 65535
    → (parse_pattern (h ++ b':' ∷ t) ≡ ok (exactly h n))
      × (parse_pattern (b'*' ∷ b'.' ∷ (h ++ b':' ∷ t)) ≡ ok (below h n))
      × (parse_pattern (b'*' ∷ b':' ∷ t) ≡ ok (any_port n))
parse_pattern-printed h t n p q ne ns a lo hi = (
  parse_pattern-joined h t n p q ne a lo hi ∙ classify_host-exact h n ne ns,
  parse_pattern-joined (b'*' ∷ b'.' ∷ h) t n (starred-IsPlain h p) q (λ e. cc) a lo hi
      ∙ classify_host-below h n ne ns,
  parse_pattern-joined (b'*' ∷ []) t n star-IsPlain q (λ e. cc) a lo hi
      ∙ (unfold classify_host to_lower equal in refl),
)
