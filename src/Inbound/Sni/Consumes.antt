-- ===== src/Inbound/Sni/Consumes.antt =====
-- internal/inbound/sni.go: what `SniffSNI` has consumed when it returns a host, and what the host is.
use vsockd.Common.{
  ℕ, zero, suc, ◌≤◌, ◌<◌, ◌≡◌, ◌≢◌, sym, ap, ◌∙◌, [], ◌∷◌, ◌++◌, ltb, leb, length, Outcome, ok, err,
  panic, no_fuel, ◌>>=◌, reject, arith, length-append, >>=-eq-ok, ok-injective, Bool-cases, inl,
  inr,
}
use mathlib.Core.List.{append_assoc}
use mathlib.Core.Path.{ap₂}
use vsockd.Go.Strings.{Bytes, to_lower}
use vsockd.Go.Slices.{slice, slice_from}
use vsockd.Go.Strings.Laws.{to_lower_idem, length-to_lower}
use vsockd.Inbound.Sni
use vsockd.Inbound.Sni.Total.{read_full-ok}

-- A host name as it is looked up: not empty, and in lower case.
pub record IsHost (h : Bytes) : Type 0 where
  pub non_empty : h ≢ []
  pub lower : to_lower h ≡ h

-- every result of the computation is a host
abbrev Yields : Outcome Sni.Error Bytes → Type 0
Yields (ok h) = IsHost h
Yields _ = Unit

Yields->>= :
    {A : Type 0} (m : Outcome Sni.Error A) (f : A → Outcome Sni.Error Bytes)
    → ((a : A) → Yields (f a))
    → Yields (m >>= f)
Yields->>= (ok a) f h = h a
Yields->>= (err e) f h = tt
Yields->>= panic f h = tt
Yields->>= no_fuel f h = tt

next_name-Yields :
    (again : Bytes → Outcome Sni.Error Bytes) (e : ℕ × Bytes × Bytes)
    → Yields (again e.2)
    → Yields (Sni.next_name again e)
unfolding Sni.next_name
next_name-Yields again (t, [], rest) h = ground arith
next_name-Yields again (t, c ∷ cs, rest) h =
    ground (arith, to_lower_idem (c ∷ cs), length-to_lower (c ∷ cs))

walk_names-Yields : (fuel : ℕ) (l : Bytes) → Yields (Sni.walk_names fuel l)
unfolding Sni.walk_names
walk_names-Yields zero l = tt
walk_names-Yields (suc fuel) l = elim (Bool-cases (leb 3 (length l))) [
  | inl long ↦ rw long (
      Yields->>= (Sni.read_name l) _
        (λ e. next_name-Yields (Sni.walk_names fuel) e (walk_names-Yields fuel e.2)))
  | inr short ↦ rw short tt
]

parse_sni_extension-Yields : (b : Bytes) → Yields (Sni.parse_sni_extension b)
unfolding Sni.parse_sni_extension
parse_sni_extension-Yields b = Yields->>= (reject (ltb (length b) 2) Sni.short_server_name) _ (λ _.
    Yields->>= (slice {E = Sni.Error} b 0 2) _ (λ prefix. Yields->>= (Sni.uint16 prefix) _ (λ n.
      Yields->>= (slice_from {E = Sni.Error} b 2) _ (λ list.
        Yields->>= (reject (ltb (length list) n) Sni.list_truncated) _ (λ _.
          Yields->>= (slice {E = Sni.Error} list 0 n) _
            (λ list'. walk_names-Yields (suc (length list')) list'))))))

next_extension-Yields :
    (again : Bytes → Outcome Sni.Error Bytes) (e : ℕ × Bytes × Bytes)
    → Yields (again e.2)
    → Yields (Sni.next_extension again e)
unfolding Sni.next_extension
next_extension-Yields again (t, ext, rest) h = ground (arith, parse_sni_extension-Yields ext)

walk_extensions-Yields : (fuel : ℕ) (l : Bytes) → Yields (Sni.walk_extensions fuel l)
unfolding Sni.walk_extensions
walk_extensions-Yields zero l = tt
walk_extensions-Yields (suc fuel) l = elim (Bool-cases (leb 4 (length l))) [
  | inl long ↦ rw long (
      Yields->>= (Sni.read_extension l) _
        (λ e. next_extension-Yields (Sni.walk_extensions fuel) e (walk_extensions-Yields fuel e.2)))
  | inr short ↦ rw short tt
]

parse_client_hello_sni-Yields : (b : Bytes) → Yields (Sni.parse_client_hello_sni b)
unfolding Sni.parse_client_hello_sni
parse_client_hello_sni-Yields b = Yields->>= (Sni.open_hello b) _ (λ body.
    Yields->>= (Sni.read_vectors body) _ (λ exts. walk_extensions-Yields (suc (length exts)) exts))

fragment_len-bound :
    (h : Bytes) (n : ℕ) → length h ≡ 5 → Sni.fragment_len h ≡ ok n → (0 < n) × (n ≤ 16384)
unfolding Sni.fragment_len
fragment_len-bound (a ∷ b ∷ c ∷ d ∷ e ∷ []) n _ h = ground arith
fragment_len-bound _ n l e = absurd (omega arith)

-- When `SniffSNI` returns a host, it has consumed exactly the bytes that it hands on for the replay:
-- a prefix of the stream, of one record header and a fragment of 1 to 16384 bytes. The host is not
-- empty and in lower case.
pub sniff_sni-consumes :
    (r host buffered rest : Bytes)
    → Sni.sniff_sni r ≡ ok (host, buffered, rest)
    → (r ≡ buffered ++ rest) × (5 < length buffered) × (length buffered ≤ 16389) × IsHost host
unfolding Sni.sniff_sni
sniff_sni-consumes r host buffered rest e =
    let (header, h, e1) = >>=-eq-ok (Sni.read_full Sni.read_header Sni.record_header_len r) _ e in
    let (n, f, e2) = >>=-eq-ok (Sni.fragment_len header.0) _ e1 in
    let (frag, g, e3) = >>=-eq-ok (Sni.read_full Sni.read_fragment n header.1) _ e2 in
    let (hello, k, e4) = >>=-eq-ok (slice_from {E = Sni.Error} (header.0 ++ frag.0) 5) _ e3 in
    let (host', p, e5) = >>=-eq-ok (Sni.parse_client_hello_sni hello) _ e4 in
    let q = ok-injective e5 in
    let got = read_full-ok _ _ r header h in
    let got' = read_full-ok _ _ header.1 frag g in
    let host_eq : host' ≡ host = ap (λ (t : Bytes × Bytes × Bytes). t.0) q in
    let buf_eq : header.0 ++ frag.0 ≡ buffered = ap (λ (t : Bytes × Bytes × Bytes). t.1) q in
    let rest_eq : frag.1 ≡ rest = ap (λ (t : Bytes × Bytes × Bytes). t.2) q in
    let total = length-append header.0 frag.0 in
    let bound = fragment_len-bound header.0 n got.0 f in
    (
      got.1
          ∙ ap (λ (t : Bytes). header.0 ++ t) got'.1
          ∙ sym (append_assoc header.0 frag.0 frag.1)
          ∙ ap₂ (λ (x y : Bytes). x ++ y) buf_eq rest_eq,
      rw (← buf_eq) (omega (arith, total, got.0, got'.0, bound)),
      rw (← buf_eq) (omega (arith, total, got.0, got'.0, bound)),
      rw (← host_eq) (rw p at (parse_client_hello_sni-Yields hello)),
    )
