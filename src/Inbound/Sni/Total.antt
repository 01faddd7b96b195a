-- ===== src/Inbound/Sni/Total.antt =====
-- internal/inbound/sni.go: the results of the parser on every input.
use vsockd.Common.{
  ℕ, zero, suc, ◌+◌, ◌-◌, ◌*◌, ◌≤◌, ◌<◌, ◌≡◌, [], ◌∷◌, ◌++◌, if◌then◌else◌, ltb, leb, length, take,
  drop, Outcome, ok, err, panic, no_fuel, arith, Returns, Returns->>=, length-drop, length-take,
  length-append, take-append-drop, Bool-cases, inl, inr, leb→le,
}
use vsockd.Go.Slices.{slice_from_lem}
use vsockd.Go.Strings.{Bytes}
use vsockd.Inbound.Sni

uint16-Returns : (b : Bytes) → 2 ≤ length b → Returns (Sni.uint16 b)
unfolding Sni.uint16
uint16-Returns [] h = absurd (omega arith)
uint16-Returns (x ∷ []) h = absurd (omega arith)
uint16-Returns (x ∷ y ∷ b) h = tt

read_vec8-Returns : (b : Bytes) → Returns (Sni.read_vec8 b)
unfolding Sni.read_vec8
read_vec8-Returns [] = tt
read_vec8-Returns (n ∷ b) = ground arith

read_vec16-Returns : (b : Bytes) → Returns (Sni.read_vec16 b)
unfolding Sni.read_vec16
read_vec16-Returns [] = tt
read_vec16-Returns (x ∷ []) = tt
read_vec16-Returns (x ∷ y ∷ b) = ground arith

read_name-Returns : (l : Bytes) → 3 ≤ length l → Returns (Sni.read_name l)
unfolding Sni.read_name
read_name-Returns (x ∷ y ∷ z ∷ b) h = ground arith
read_name-Returns _ h = absurd (omega arith)

read_extension-Returns : (l : Bytes) → 4 ≤ length l → Returns (Sni.read_extension l)
unfolding Sni.read_extension
read_extension-Returns (x ∷ y ∷ z ∷ w ∷ b) h = ground arith
read_extension-Returns _ h = absurd (omega arith)

sub-zero : (n : ℕ) → n - 0 ≡ n
sub-zero n = omega arith

one-add : (n : ℕ) → 1 + n ≡ suc n
one-add n = omega arith

two-add : (n : ℕ) → 2 + n ≡ suc (suc n)
two-add n = omega arith

suc-sub : (n : ℕ) → suc n - 1 ≡ n
suc-sub n = omega arith

suc-suc-sub : (n : ℕ) → suc (suc n) - 2 ≡ n
suc-suc-sub n = omega arith

-- What the parser's pieces compute on inputs of at least the tested length.
pub read_name-cons :
    (t hi lo : ℕ) (b : Bytes)
    → let n = hi * 256 + lo in
      Sni.read_name (t ∷ hi ∷ lo ∷ b)
      ≡ (if ltb (length b) n then err Sni.name_truncated else ok (t, take n b, drop n b))
unfolding Sni.read_name
read_name-cons t hi lo b = ground (arith, sub-zero (hi * 256 + lo))

pub read_extension-cons :
    (th tl hi lo : ℕ) (b : Bytes)
    → let n = hi * 256 + lo in
      Sni.read_extension (th ∷ tl ∷ hi ∷ lo ∷ b) ≡ (
        if ltb (length b) n
        then err Sni.extension_truncated
        else ok (th * 256 + tl, take n b, drop n b))
unfolding Sni.read_extension
read_extension-cons th tl hi lo b = ground (arith, sub-zero (hi * 256 + lo))

pub read_vec8-cons :
    (n : ℕ) (b : Bytes)
    → Sni.read_vec8 (n ∷ b)
      ≡ (if ltb (length b) n then err Sni.vector_truncated else ok (take n b, drop n b))
unfolding Sni.read_vec8
read_vec8-cons n b = rw one-add (ground (arith, suc-sub n))

pub read_vec16-cons :
    (hi lo : ℕ) (b : Bytes)
    → let n = hi * 256 + lo in
      Sni.read_vec16 (hi ∷ lo ∷ b)
      ≡ (if ltb (length b) n then err Sni.vector_truncated else ok (take n b, drop n b))
unfolding Sni.read_vec16
read_vec16-cons hi lo b = ground (arith, two-add (hi * 256 + lo), suc-suc-sub (hi * 256 + lo))

-- Each round of a loop leaves a shorter list.
read_name-shrinks :
    (l : Bytes) (t : ℕ) (name rest : Bytes)
    → 3 ≤ length l
    → Sni.read_name l ≡ ok (t, name, rest)
    → length rest < length l
read_name-shrinks (x ∷ hi ∷ lo ∷ b) t name rest h e =
    ground (arith, read_name-cons x hi lo b, length-drop (hi * 256 + lo) b)
read_name-shrinks _ t name rest h e = absurd (omega arith)

read_extension-shrinks :
    (l : Bytes) (t : ℕ) (ext rest : Bytes)
    → 4 ≤ length l
    → Sni.read_extension l ≡ ok (t, ext, rest)
    → length rest < length l
read_extension-shrinks (th ∷ tl ∷ hi ∷ lo ∷ b) t ext rest h e =
    ground (arith, read_extension-cons th tl hi lo b, length-drop (hi * 256 + lo) b)
read_extension-shrinks _ t ext rest h e = absurd (omega arith)

next_name-Returns :
    (again : Bytes → Outcome Sni.Error Bytes) (t : ℕ) (name rest : Bytes)
    → Returns (again rest)
    → Returns (Sni.next_name again (t, name, rest))
unfolding Sni.next_name
next_name-Returns again t name rest h = ground arith

walk_names-Returns : (fuel : ℕ) (l : Bytes) → length l < fuel → Returns (Sni.walk_names fuel l)
unfolding Sni.walk_names
walk_names-Returns zero l h = absurd (omega arith)
walk_names-Returns (suc fuel) l h = elim (Bool-cases (leb 3 (length l))) [
  | inl long ↦ rw long (
      Returns->>= (Sni.read_name l) _ (read_name-Returns l (leb→le _ _ long)) (λ (t, name, rest) e.
        next_name-Returns (Sni.walk_names fuel) t name rest (
          walk_names-Returns fuel rest
            (omega (arith, read_name-shrinks l t name rest (leb→le _ _ long) e)))))
  | inr short ↦ rw short tt
]

parse_sni_extension-Returns : (b : Bytes) → Returns (Sni.parse_sni_extension b)
unfolding Sni.parse_sni_extension
parse_sni_extension-Returns [] = tt
parse_sni_extension-Returns (x ∷ []) = tt
parse_sni_extension-Returns (hi ∷ lo ∷ b) = ground (
  arith,
  walk_names-Returns (suc (length (take (hi * 256 + lo - 0) b))) (take (hi * 256 + lo - 0) b),
)

next_extension-Returns :
    (again : Bytes → Outcome Sni.Error Bytes) (t : ℕ) (ext rest : Bytes)
    → Returns (again rest)
    → Returns (Sni.next_extension again (t, ext, rest))
unfolding Sni.next_extension
next_extension-Returns again t ext rest h = ground (arith, parse_sni_extension-Returns ext)

walk_extensions-Returns :
    (fuel : ℕ) (l : Bytes) → length l < fuel → Returns (Sni.walk_extensions fuel l)
unfolding Sni.walk_extensions
walk_extensions-Returns zero l h = absurd (omega arith)
walk_extensions-Returns (suc fuel) l h = elim (Bool-cases (leb 4 (length l))) [
  | inl long ↦ rw long (
      Returns->>= (Sni.read_extension l) _ (read_extension-Returns l (leb→le _ _ long))
        (λ (t, ext, rest) e. next_extension-Returns (Sni.walk_extensions fuel) t ext rest (
          walk_extensions-Returns fuel rest
            (omega (arith, read_extension-shrinks l t ext rest (leb→le _ _ long) e)))))
  | inr short ↦ rw short tt
]

under-Returns :
    {A : Type 0} (f : Sni.Error → Sni.Error) (r : Outcome Sni.Error A)
    → Returns r
    → Returns (Sni.under f r)
under-Returns f (ok a) h = tt
under-Returns f (err e) h = tt
under-Returns f panic h = elim h [ ]
under-Returns f no_fuel h = elim h [ ]

read_vectors-Returns : (b : Bytes) → Returns (Sni.read_vectors b)
unfolding Sni.read_vectors
read_vectors-Returns b =
    Returns->>= (Sni.under Sni.session_id (Sni.read_vec8 b)) _
      (under-Returns _ _ (read_vec8-Returns b))
      (λ sid _.
        Returns->>= (Sni.under Sni.cipher_suites (Sni.read_vec16 sid.1)) _
          (under-Returns _ _ (read_vec16-Returns sid.1))
          (λ cs _.
            Returns->>= (Sni.under Sni.compression_methods (Sni.read_vec8 cs.1)) _
              (under-Returns _ _ (read_vec8-Returns cs.1))
              (λ cm _.
                Returns->>= (Sni.under Sni.extensions (Sni.read_vec16 cm.1)) _
                  (under-Returns _ _ (read_vec16-Returns cm.1)) (λ exts _. tt))))

open_hello-Returns : (b : Bytes) → Returns (Sni.open_hello b)
unfolding Sni.open_hello
open_hello-Returns (t ∷ a ∷ b ∷ c ∷ l) = ground arith
open_hello-Returns _ = tt

parse_client_hello_sni-Returns : (b : Bytes) → Returns (Sni.parse_client_hello_sni b)
unfolding Sni.parse_client_hello_sni
parse_client_hello_sni-Returns b =
    Returns->>= (Sni.open_hello b) _ (open_hello-Returns b) (λ body _.
      Returns->>= (Sni.read_vectors body) _ (read_vectors-Returns body)
        (λ exts _. walk_extensions-Returns (suc (length exts)) exts (omega arith)))

fragment_len-Returns : (h : Bytes) → length h ≡ 5 → Returns (Sni.fragment_len h)
unfolding Sni.fragment_len
fragment_len-Returns (a ∷ b ∷ c ∷ d ∷ e ∷ []) _ = ground arith
fragment_len-Returns _ e = absurd (omega arith)

pub read_full-ok :
    (x : Sni.Error) (n : ℕ) (r : Bytes) (got : Bytes × Bytes)
    → Sni.read_full x n r ≡ ok got
    → (length got.0 ≡ n) × (r ≡ got.0 ++ got.1)
unfolding Sni.read_full
read_full-ok x n r got e = ground (arith, length-take n r, take-append-drop n r)

read_full-Returns : (x : Sni.Error) (n : ℕ) (r : Bytes) → Returns (Sni.read_full x n r)
unfolding Sni.read_full
read_full-Returns x n r = ground arith

-- `SniffSNI` returns on every stream of bytes: with a host or an error, with no index or slice out of
-- range, and with loops that end within their fuel.
pub sniff_sni-Returns : (r : Bytes) → Returns (Sni.sniff_sni r)
unfolding Sni.sniff_sni
sniff_sni-Returns r =
    Returns->>= (Sni.read_full Sni.read_header Sni.record_header_len r) _ (read_full-Returns _ _ r)
      (λ header e.
        Returns->>= (Sni.fragment_len header.0) _
          (fragment_len-Returns header.0 (read_full-ok _ _ r header e).0)
          (λ n _.
            Returns->>= (Sni.read_full Sni.read_fragment n header.1) _
              (read_full-Returns _ _ header.1)
              (λ frag _.
                rw
                  (slice_from_lem (header.0 ++ frag.0) 5
                    (omega (arith, length-append header.0 frag.0, (read_full-ok _ _ r header e).0)))
                  (Returns->>= (Sni.parse_client_hello_sni (drop 5 (header.0 ++ frag.0))) _
                    (parse_client_hello_sni-Returns _) (λ host _. tt)))))
