-- ===== src/Outbound/Enrich/TopLevel.antt =====
-- internal/outbound/logrelay.go: `hasReservedTopLevelKey` against the JSON value that the line stands for.
use vsockd.Common.{ℕ, suc, ◌≡◌, refl, Bool, true, false, ◌||◌, List, ◌∷◌, arith, ◌∙◌}
use vsockd.Go.Strings.{Bytes}
use vsockd.Config.Types.{mem_bytes}
use vsockd.Outbound.Enrich.{
  Token, open_delim, close_delim, scalar, text, scan, has_reserved_top_level_key,
}

-- A JSON value, its strings decoded.
mutual
  pub data Value : Type 0 where
    atom : Value
    str : Bytes → Value
    arr : Items → Value
    obj : Members → Value

  pub data Items : Type 0 where
    nil : Items
    cons : Value → Items → Items

  pub data Members : Type 0 where
    end : Members
    member : Bytes → Value → Members → Members

-- the tokens of a value, with those of the text behind it
unfoldable mutual
  pub tokens_of : Value → List Token → List Token
  tokens_of atom k = scalar ∷ k
  tokens_of (str s) k = text s ∷ k
  tokens_of (arr xs) k = open_delim ∷ tokens_items xs (close_delim ∷ k)
  tokens_of (obj ms) k = open_delim ∷ tokens_members ms (close_delim ∷ k)

  tokens_items : Items → List Token → List Token
  tokens_items nil k = k
  tokens_items (cons x xs) k = tokens_of x (tokens_items xs k)

  tokens_members : Members → List Token → List Token
  tokens_members end k = k
  tokens_members (member s v ms) k = text s ∷ tokens_of v (tokens_members ms k)

-- some key of the object itself is reserved
unfoldable pub declares : List Bytes → Members → Bool
declares reserved end = false
declares reserved (member s v ms) = mem_bytes reserved s || declares reserved ms

scan-deep_text :
    (r : List Bytes) (d : ℕ) (s : Bytes) (k : List Token)
    → scan r (suc (suc d)) false (text s ∷ k) ≡ scan r (suc (suc d)) false k
unfolding scan
scan-deep_text r d s k = ground arith

scan-deep_scalar :
    (r : List Bytes) (d : ℕ) (k : List Token)
    → scan r (suc (suc d)) false (scalar ∷ k) ≡ scan r (suc (suc d)) false k
unfolding scan
scan-deep_scalar r d k = ground arith

scan-deep_close :
    (r : List Bytes) (d : ℕ) (k : List Token)
    → scan r (suc (suc (suc d))) false (close_delim ∷ k) ≡ scan r (suc (suc d)) false k
unfolding scan
scan-deep_close r d k = ground arith

-- inside a nested value, the scan looks at nothing
mutual
  unfolding scan tokens_of tokens_items tokens_members

  scan-value :
      (r : List Bytes) (d : ℕ) (v : Value) (k : List Token)
      → scan r (suc (suc d)) false (tokens_of v k) ≡ scan r (suc (suc d)) false k
  scan-value r d atom k = scan-deep_scalar r d k
  scan-value r d (str s) k = scan-deep_text r d s k
  scan-value r d (arr xs) k = scan-items r (suc d) xs (close_delim ∷ k) ∙ scan-deep_close r d k
  scan-value r d (obj ms) k = scan-members r (suc d) ms (close_delim ∷ k) ∙ scan-deep_close r d k

  scan-items :
      (r : List Bytes) (d : ℕ) (xs : Items) (k : List Token)
      → scan r (suc (suc d)) false (tokens_items xs k) ≡ scan r (suc (suc d)) false k
  scan-items r d nil k = refl
  scan-items r d (cons x xs) k = scan-value r d x (tokens_items xs k) ∙ scan-items r d xs k

  scan-members :
      (r : List Bytes) (d : ℕ) (ms : Members) (k : List Token)
      → scan r (suc (suc d)) false (tokens_members ms k) ≡ scan r (suc (suc d)) false k
  scan-members r d end k = refl
  scan-members r d (member s v ms) k =
      scan-deep_text r d s (tokens_of v (tokens_members ms k))
      ∙ (scan-value r d v (tokens_members ms k) ∙ scan-members r d ms k)

-- the value of a top-level key
scan-member_value :
    (r : List Bytes) (v : Value) (k : List Token) → scan r 1 false (tokens_of v k) ≡ scan r 1 true k
unfolding scan tokens_of
scan-member_value r atom k = ground arith
scan-member_value r (str s) k = ground arith
scan-member_value r (arr xs) k = scan-items r 0 xs (close_delim ∷ k) ∙ ground arith
scan-member_value r (obj ms) k = scan-members r 0 ms (close_delim ∷ k) ∙ ground arith

scan-top :
    (r : List Bytes) (ms : Members) (k : List Token)
    → scan r 1 true (tokens_members ms (close_delim ∷ k)) ≡ declares r ms
unfolding scan tokens_members declares
scan-top r end k = ground arith
scan-top r (member s v ms) k =
    ground (arith, scan-member_value r v (tokens_members ms (close_delim ∷ k)), scan-top r ms k)

-- On the tokens of a JSON object, with whatever follows it, the scan answers exactly whether one of the
-- object's own keys is reserved: neither a nested key nor a string value counts, and none is missed.
pub has_reserved_top_level_key-declares :
    (reserved : List Bytes) (ms : Members) (k : List Token)
    → has_reserved_top_level_key reserved (tokens_of (obj ms) k) ≡ declares reserved ms
unfolding has_reserved_top_level_key tokens_of
has_reserved_top_level_key-declares reserved ms k = scan-top reserved ms k
