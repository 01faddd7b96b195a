-- ===== src/Config/Patterns.antt =====
-- internal/config/config.go and internal/allowlist/allowlist.go: the two readings of a pattern.
use vsockd.Common.{
  ℕ, ◌≡◌, refl, sym, ap, ◌∙◌, Bool, true, false, ◌||◌, Option, none, some, [], ◌∷◌, drop, ℤ, pos,
  negsuc, ltz, gtz, Outcome, ok, err, panic, no_fuel, ◌>>=◌, ◌>>◌, arith, Bool-cases, Option-cases,
  inl, inr,
}
use vsockd.Go.Net.{split_host_port, atoi}
use vsockd.Go.Strings.{Bytes, equal, is_empty, to_lower, has_prefix, contains_byte}
use vsockd.Go.Strings.Laws.{contains_byte-to_lower, to_lower-drop}
use vsockd.Config.Listeners
use vsockd.Config.Types
use vsockd.Allowlist.Defs

-- whether a computation returned a value
abbrev pub is_ok {ℓ κ} : {E : Type ℓ} {A : Type κ} → Outcome E A → Bool
is_ok (ok a) = true
is_ok _ = false

is_empty-to_lower : (h : Bytes) → is_empty (to_lower h) ≡ is_empty h
unfolding to_lower
is_empty-to_lower [] = refl
is_empty-to_lower (c ∷ cs) = refl

equal_star-to_lower : (h : Bytes) → equal (to_lower h) (b'*' ∷ []) ≡ equal h (b'*' ∷ [])
unfolding to_lower equal
equal_star-to_lower [] = refl
equal_star-to_lower (c ∷ []) = ground arith
equal_star-to_lower (c ∷ d ∷ cs) = ground arith

has_prefix_star-to_lower :
    (h : Bytes) → has_prefix (to_lower h) (b'*' ∷ b'.' ∷ []) ≡ has_prefix h (b'*' ∷ b'.' ∷ [])
unfolding to_lower has_prefix
has_prefix_star-to_lower [] = refl
has_prefix_star-to_lower (c ∷ []) = ground arith
has_prefix_star-to_lower (c ∷ d ∷ cs) = ground arith

drop-to_lower-contains :
    (h : Bytes) → contains_byte (drop 2 (to_lower h)) b'*' ≡ contains_byte (drop 2 h) b'*'
drop-to_lower-contains h =
    ap (λ (t : Bytes). contains_byte t b'*') (sym (to_lower-drop 2 h))
    ∙ contains_byte-to_lower (drop 2 h) b'*' (omega arith)

drop-to_lower-empty : (h : Bytes) → is_empty (drop 2 (to_lower h)) ≡ is_empty (drop 2 h)
drop-to_lower-empty h =
    ap (λ (t : Bytes). is_empty t) (sym (to_lower-drop 2 h)) ∙ is_empty-to_lower (drop 2 h)

-- the switches agree on the host
classify-check :
    (h : Bytes) (n : ℕ)
    → is_ok (Defs.classify_host (to_lower h) n) ≡ is_ok (Listeners.check_pattern_host h)
unfolding Defs.classify_host Listeners.check_pattern_host
classify-check h n =
    rw
      (
        is_empty-to_lower h,
        equal_star-to_lower h,
        has_prefix_star-to_lower h,
        drop-to_lower-empty h,
        drop-to_lower-contains h,
        contains_byte-to_lower h b'*' (omega arith),
      )
      (ground arith)

is_ok-err :
    {A : Type 0} (m : Outcome Types.Error A) (e : Types.Error)
    → is_ok {A = Unit {0}} (m >>= λ _. err e) ≡ false
is_ok-err (ok a) e = refl
is_ok-err (err x) e = refl
is_ok-err panic e = refl
is_ok-err no_fuel e = refl

is_ok-first :
    {A : Type 0} (m : Outcome Types.Error A) → is_ok {A = Unit {0}} (m >>= λ _. ok tt) ≡ is_ok m
is_ok-first (ok a) = refl
is_ok-first (err x) = refl
is_ok-first panic = refl
is_ok-first no_fuel = refl

-- the checks of host and port come in either order
check-both :
    (h : Bytes) (v : Option ℤ)
    → is_ok (Listeners.check_pattern_host h >> Listeners.check_port v)
      ≡ is_ok (Defs.checked_port v >>= Defs.classify_host (to_lower h))
check-both h none = is_ok-err (Listeners.check_pattern_host h) Types.invalid_port
check-both h (some (negsuc n)) = is_ok-err (Listeners.check_pattern_host h) Types.invalid_port
check-both h (some (pos n)) = elim (Bool-cases (ltz (pos n) 1 || gtz (pos n) 65535)) [
  | inl out ↦ rw out (is_ok-err (Listeners.check_pattern_host h) Types.invalid_port)
  | inr within ↦ rw within (is_ok-first (Listeners.check_pattern_host h) ∙ sym (classify-check h n))
]

split-nil : split_host_port [] ≡ none
unfolding split_host_port
split-nil = refl

-- `validatePattern` accepts a text exactly when the allowlist's `parsePattern` compiles it.
pub validate_pattern-parse_pattern :
    (pat : Bytes) → is_ok (Listeners.validate_pattern pat) ≡ is_ok (Defs.parse_pattern pat)
unfolding Listeners.validate_pattern Defs.parse_pattern
validate_pattern-parse_pattern [] = rw split-nil (unfold equal in refl)
validate_pattern-parse_pattern (c ∷ cs) = elim (Bool-cases (equal (c ∷ cs) (b'*' ∷ []))) [
  | inl star ↦ rw star refl
  | inr other ↦ rw other (elim (Option-cases (split_host_port (c ∷ cs))) [
    | inl e ↦ rw e refl
    | inr (hp, e) ↦ rw e (check-both hp.0 (atoi hp.1))
  ])
]
