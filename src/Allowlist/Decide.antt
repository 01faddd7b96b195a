-- ===== src/Allowlist/Decide.antt =====
-- internal/allowlist/allowlist.go: `Allow` against the package comment's pattern grammar.
use vsockd.Common.{
  ℕ, ◌≤◌, ◌≡◌, refl, ◌↔◌, inl, inr, true, some, List, [], ◌∷◌, ℤ, pos, negsuc, arith, Bool-cases,
  Any, here, there, eqz,
}
use vsockd.Go.Strings.{Bytes, to_lower}
use vsockd.Go.Strings.Laws.{equal_iff, has_suffix_iff, Ends, has_suffix_sound}
use vsockd.Allowlist.Defs.{
  PatternKind, universal, any_host, host_suffix, exact, Pattern, Matcher, match_kind, match,
  match_any, allow,
}

-- What the grammar says: `host` in lower case, `n` the port.
abbrev PermitsKind : PatternKind → Pattern → Bytes → ℕ → Type 0
PermitsKind universal p host n = Unit
PermitsKind any_host p host n = n ≡ p.port
PermitsKind exact p host n = (n ≡ p.port) × (host ≡ p.host)
PermitsKind host_suffix p host n = (n ≡ p.port) × Ends host p.suffix

abbrev pub Permits : Pattern → Bytes → ℕ → Type 0
Permits p = PermitsKind p.kind p

eqz_iff : (n m : ℕ) → (eqz (pos n) m ≡ true) ↔ (n ≡ m)
eqz_iff n m = ground arith

match_kind_iff :
    (k : PatternKind) (p : Pattern) (h : Bytes) (n : ℕ)
    → (match_kind k p h (pos n) ≡ true) ↔ PermitsKind k p h n
unfolding match_kind
match_kind_iff universal p h n = (λ _. tt, λ _. refl)
match_kind_iff any_host p h n = eqz_iff n p.port
match_kind_iff exact p h n = ground (arith, equal_iff h p.host)
match_kind_iff host_suffix p h n = (
  λ t. (ground arith, has_suffix_sound h p.suffix (ground arith)),
  λ (e, q). ground (arith, (has_suffix_iff h p.suffix).1 q),
)

match_any_sound :
    (ps : List Pattern) (h : Bytes) (n : ℕ)
    → match_any ps h (pos n) ≡ true
    → Any (λ p. Permits p h n) ps
unfolding match_any match
match_any_sound [] h n t = absurd (ground arith)
match_any_sound (p ∷ ps) h n t = elim (Bool-cases (match_kind p.kind p h (pos n))) [
  | inl yes' ↦ here ((match_kind_iff p.kind p h n).0 yes')
  | inr no' ↦ there (match_any_sound ps h n (rw no' at t))
]

match_any_complete :
    {h : Bytes} {n : ℕ} {ps : List Pattern}
    → Any (λ p. Permits p h n) ps
    → match_any ps h (pos n) ≡ true
unfolding match_any match
match_any_complete (here {x = p} q) = rw ((match_kind_iff p.kind p _ _).1 q)
match_any_complete (there {x = p} r) = ground (arith, match_any_complete r)

allow_sound :
    (ps : List Pattern) (host : Bytes) (port : ℤ)
    → allow (some (record { patterns = ps })) host port ≡ true
    → (n : ℕ) × (port ≡ pos n) × (1 ≤ n) × (n ≤ 65535) × Any (λ p. Permits p (to_lower host) n) ps
unfolding allow
allow_sound ps host (negsuc i) t = absurd (ground arith)
allow_sound ps host (pos n) t =
    (n, refl, ground arith, ground arith, match_any_sound ps (to_lower host) n (ground arith))

allow_complete :
    (ps : List Pattern) (host : Bytes) (n : ℕ)
    → 1 ≤ n
    → n ≤ 65535
    → Any (λ p. Permits p (to_lower host) n) ps
    → allow (some (record { patterns = ps })) host (pos n) ≡ true
unfolding allow
allow_complete ps host n lo hi a = ground (arith, match_any_complete a)

-- `Allow` answers true exactly when the port is in 1..65535 and one of the patterns permits the
-- host, in lower case, on that port, by the grammar of the package comment.
pub allow_iff :
    (m : Matcher) (host : Bytes) (port : ℤ)
    → (allow (some m) host port ≡ true) ↔ (
        (n : ℕ) × (port ≡ pos n)
        × (1 ≤ n)
        × (n ≤ 65535)
        × Any (λ p. Permits p (to_lower host) n) m.patterns)
allow_iff m host port = (
  allow_sound m.patterns host port,
  λ (n, e, lo, hi, a). rw e (allow_complete m.patterns host n lo hi a),
)
