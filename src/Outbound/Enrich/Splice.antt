-- ===== src/Outbound/Enrich/Splice.antt =====
-- internal/outbound/logrelay.go: where `emit` puts the host's fields.
use vsockd.Common.{
  ℕ, suc, ◌-◌, ◌≡◌, ◌⊎◌, inl, inr, refl, ap, Bool, true, false, not, ◌&&◌, List, [], ◌∷◌, ◌++◌,
  arith, All, length, take, drop, if◌then◌else◌, Bool-cases,
}
use mathlib.Core.List.{append_assoc}
use vsockd.Go.Strings.{Bytes, index_byte, is_empty}
use vsockd.Config.Listeners.{is_nil}
use vsockd.Outbound.Enrich.{
  Enricher, Token, is_space, starts_with, trim_left, behind_brace, splice_object, wrap_raw,
  is_json_object, emit, has_reserved_top_level_key,
}

abbrev IsSpace : ℕ → Type 0
IsSpace c = is_space c ≡ true

-- `out` opens, behind white space, with a brace and the host's fields, with or without their last comma.
pub record Opens (prefix out : Bytes) : Type 0 where
  pub blank : Bytes
  pub put : Bytes
  pub rest : Bytes
  pub blank-IsSpace : All IsSpace blank
  pub put-cases : (put ≡ prefix) ⊎ (put ≡ take (length prefix - 1) prefix)
  pub split : out ≡ blank ++ (b'{' ∷ (put ++ rest))

record Braced (s : Bytes) : Type 0 where
  blank : Bytes
  rest : Bytes
  blank-IsSpace : All IsSpace blank
  split : s ≡ blank ++ (b'{' ∷ rest)

brace :
    (c : ℕ) (s : Bytes)
    → is_space c ≡ false
    → starts_with (trim_left (c ∷ s)) b'{' ≡ true
    → c ≡ b'{'
unfolding trim_left
brace c s n e = ground arith

trim_left-Braced : (s : Bytes) → starts_with (trim_left s) b'{' ≡ true → Braced s
unfolding trim_left
trim_left-Braced [] e = cc
trim_left-Braced (c ∷ s) e = elim (Bool-cases (is_space c)) [
  | inl y ↦
      let b = trim_left-Braced s (ground (arith, y)) in
      record {
        blank = c ∷ b.blank;
        rest = b.rest;
        blank-IsSpace = (y, b.blank-IsSpace);
        split = ap (◌∷◌ c) b.split;
      }
  | inr n ↦ record {
    blank = [];
    rest = s;
    blank-IsSpace = tt;
    split = ap (λ x. x ∷ s) (brace c s n e);
  }
]

behind_brace-blank :
    (ws rest : Bytes) → All IsSpace ws → behind_brace (ws ++ (b'{' ∷ rest)) ≡ suc (length ws)
unfolding index_byte
behind_brace-blank [] rest a = ground arith
behind_brace-blank (c ∷ ws) rest a = ground (arith, behind_brace-blank ws rest a.1)

take-past : (ws rest : Bytes) (c : ℕ) → take (suc (length ws)) (ws ++ (c ∷ rest)) ≡ ws ++ (c ∷ [])
take-past [] rest c = refl
take-past (w ∷ ws) rest c = ap (◌∷◌ w) (take-past ws rest c)

drop-past : (ws rest : Bytes) (c : ℕ) → drop (suc (length ws)) (ws ++ (c ∷ rest)) ≡ rest
drop-past [] rest c = refl
drop-past (w ∷ ws) rest c = drop-past ws rest c

put-cases_if : (b : Bool) (p q : Bytes) → ((if b then q else p) ≡ p) ⊎ ((if b then q else p) ≡ q)
put-cases_if true p q = inr refl
put-cases_if false p q = inl refl

splice_object-Opens :
    (prefix ws rest : Bytes)
    → is_empty prefix ≡ false
    → All IsSpace ws
    → Opens prefix (splice_object prefix (ws ++ (b'{' ∷ rest)))
unfolding splice_object
splice_object-Opens prefix ws rest e a =
    let close = starts_with (trim_left rest) b'}' in
    let put = if close then take (length prefix - 1) prefix else prefix in
    rw (e, behind_brace-blank ws rest a, take-past ws rest b'{', drop-past ws rest b'{')
      (record {
        blank = ws;
        put = put;
        rest = rest;
        blank-IsSpace = a;
        put-cases = put-cases_if close prefix (take (length prefix - 1) prefix);
        split = append_assoc ws (b'{' ∷ []) (put ++ rest);
      })

splice-Opens :
    (prefix line : Bytes)
    → is_empty prefix ≡ false
    → Braced line
    → Opens prefix (splice_object prefix line)
splice-Opens prefix line e b =
    rw b.split (splice_object-Opens prefix b.blank b.rest e b.blank-IsSpace)

wrap_raw-Opens :
    (quote : Bytes → Bytes) (prefix line : Bytes) (truncated : Bool)
    → Opens prefix (wrap_raw quote prefix line truncated)
unfolding wrap_raw
wrap_raw-Opens quote prefix line truncated = record {
  blank = [];
  put = prefix;
  rest = _;
  blank-IsSpace = tt;
  put-cases = inl refl;
  split = refl;
}

if-Opens :
    (b : Bool) {p x y : Bytes} → (b ≡ true → Opens p x) → Opens p y → Opens p (if b then x else y)
if-Opens true f g = f refl
if-Opens false f g = g

and_left : (a b : Bool) → a && b ≡ true → a ≡ true
and_left true b e = refl
and_left false b e = e

module _ (valid : Bytes → Bool) (quote : Bytes → Bytes) (tokens : Bytes → List Token) where
  -- With enrichment configured that adds some field, every emitted record opens with the host's fields: whatever the line
  -- is, and truncated or not, they stand directly behind the opening brace, before any byte of the line
  -- but leading white space.
  pub emit-Opens :
      (e : Enricher) (line : Bytes) (truncated : Bool)
      → e.active ≡ true
      → is_empty e.prefix ≡ false
      → Opens e.prefix (emit valid quote tokens e line truncated)
  unfolding emit is_json_object
  emit-Opens e line truncated on some_prefix = rw on (
      if-Opens truncated (λ t. wrap_raw-Opens quote e.prefix line true)
        (if-Opens (starts_with (trim_left line) b'{' && valid line)
          (λ o.
            if-Opens
              (not (is_nil e.reserved) && has_reserved_top_level_key e.reserved (tokens line))
              (λ r. wrap_raw-Opens quote e.prefix line false)
              (splice-Opens e.prefix line some_prefix (trim_left-Braced line (and_left _ _ o))))
          (wrap_raw-Opens quote e.prefix line false)))
