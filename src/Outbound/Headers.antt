-- ===== src/Outbound/Headers.antt =====
-- internal/outbound/server.go: `stripHopByHop`. A header is the list of its keys, in canonical form, with
-- their values; `canonical` is textproto.CanonicalMIMEHeaderKey, which `Values` and `Del` apply to the name.
use vsockd.Common.{
  ℕ, ◌≡◌, refl, sym, ap, ◌∙◌, Bool, true, false, Option, none, some, List, [], ◌∷◌, ◌++◌, inl, inr,
  if◌then◌else◌, ◌==◌, arith, Bool-cases, map,
}
use vsockd.Go.Strings.{Bytes, bytes, equal, is_empty}
use vsockd.Go.Strings.Trim.{trim_space}
use vsockd.Go.Strings.Laws.{equal_iff}
use vsockd.Config.Types.{mem_bytes}

abbrev pub Header : Type 0
Header = List (Bytes × List Bytes)

abbrev onto_first : ℕ → List Bytes → List Bytes
onto_first c [] = (c ∷ []) ∷ []
onto_first c (p ∷ ps) = (c ∷ p) ∷ ps

-- `strings.Split(v, ",")`
unfoldable pub split_commas : Bytes → List Bytes
split_commas [] = [] ∷ []
split_commas (c ∷ s) = if c == b',' then [] ∷ split_commas s else onto_first c (split_commas s)

-- the lookup `h[k]`
unfoldable pub find_header : Header → Bytes → Option (List Bytes)
find_header [] k = none
find_header (x ∷ h) k = if equal x.0 k then some x.1 else find_header h k

unfoldable pub delete_key : Bytes → Header → Header
delete_key k [] = []
delete_key k (x ∷ h) = let rest = delete_key k h in if equal x.0 k then rest else x ∷ rest

abbrev values_or_none : Option (List Bytes) → List Bytes
values_or_none none = []
values_or_none (some vs) = vs

-- `hopByHop`
abbrev pub hop_by_hop : List Bytes
hop_by_hop =
    bytes "Proxy-Connection"
    ∷ bytes "Proxy-Authenticate"
    ∷ bytes "Proxy-Authorization"
    ∷ bytes "Keep-Alive"
    ∷ bytes "TE"
    ∷ bytes "Trailer"
    ∷ bytes "Upgrade"
    ∷ []

module _ (canonical : Bytes → Bytes) where
  -- `h.Values` and `h.Del`
  abbrev values : Header → Bytes → List Bytes
  values h name = values_or_none (find_header h (canonical name))

  abbrev del : Bytes → Header → Header
  del name h = delete_key (canonical name) h

  unfoldable del_all : List Bytes → Header → Header
  del_all [] h = h
  del_all (name ∷ names) h = del_all names (del name h)

  -- the loop over the tokens of one value
  unfoldable del_tokens : List Bytes → Header → Header
  unfolding trim_space
  del_tokens [] h = h
  del_tokens (f ∷ fs) h =
      del_tokens fs (if is_empty (trim_space f) then h else del (trim_space f) h)

  -- the loop over the values of Connection
  unfoldable del_values : List Bytes → Header → Header
  unfolding del_tokens split_commas
  del_values [] h = h
  del_values (v ∷ vs) h = del_values vs (del_tokens (split_commas v) h)

  -- `stripHopByHop`
  unfoldable pub strip_hop_by_hop : Header → Header
  unfolding find_header del_all del_values
  strip_hop_by_hop h =
      del_all hop_by_hop (del (bytes "Connection") (del_values (values h (bytes "Connection")) h))

  -- the tokens that a list of fields, and the values of Connection, name
  abbrev tokens : List Bytes → List Bytes
  tokens [] = []
  tokens (f ∷ fs) = if is_empty (trim_space f) then tokens fs else trim_space f ∷ tokens fs

  abbrev named_by : List Bytes → List Bytes
  named_by [] = []
  named_by (v ∷ vs) = tokens (split_commas v) ++ named_by vs

  -- the keys of a header that belong to one hop
  abbrev pub hop_keys : Header → List Bytes
  hop_keys h =
      map canonical (named_by (values h (bytes "Connection")) ++ (bytes "Connection" ∷ hop_by_hop))

  if_same : {A : Type 0} (b : Bool) (a : A) → a ≡ (if b then a else a)
  if_same true a = refl
  if_same false a = refl

  -- an element that is kept, then one that is deleted
  kept_first :
      {A : Type 0} (d k y : Bytes) (n a b : A)
      → equal y d ≡ false
      → (if equal y k then a else if equal d k then n else b)
        ≡ (if equal d k then n else if equal y k then a else b)
  kept_first d k y n a b e = elim (Bool-cases (equal y k)) [
    | inr yk ↦ rw yk refl
    | inl yk ↦ elim (Bool-cases (equal d k)) [
      | inr dk ↦ rw (yk, dk) refl
      | inl dk ↦
          let yd = (equal_iff y d).1 ((equal_iff y k).0 yk ∙ sym ((equal_iff d k).0 dk)) in
          absurd (ground (arith, e, yd))
    ]
  ]

  deleted_first :
      {A : Type 0} (b : Bool) (n a c : A)
      → (if b then n else c) ≡ (if b then n else if b then a else c)
  deleted_first true n a c = refl
  deleted_first false n a c = refl

  delete_key-find :
      (d : Bytes) (h : Header) (k : Bytes)
      → find_header (delete_key d h) k ≡ (if equal d k then none else find_header h k)
  unfolding delete_key find_header
  delete_key-find d [] k = if_same (equal d k) none
  delete_key-find d (x ∷ h) k = elim (Bool-cases (equal x.0 d)) [
    | inl e ↦
        rw (delete_key, e, delete_key-find d h k, (equal_iff x.0 d).0 e)
          (deleted_first (equal d k) none (some x.1) (find_header h k))
    | inr e ↦
        rw (delete_key, e, find_header, delete_key-find d h k)
          (kept_first d k x.0 none (some x.1) (find_header h k) e)
  ]

  -- a list of names deleted one after another
  del_all-find :
      (names : List Bytes) (h : Header) (k : Bytes)
      → find_header (del_all names h) k
        ≡ (if mem_bytes (map canonical names) k then none else find_header h k)
  unfolding del_all mem_bytes
  del_all-find [] h k = refl
  del_all-find (n ∷ names) h k = elim (Bool-cases (equal (canonical n) k)) [
    | inl e ↦
        rw (del_all-find names (del n h) k, delete_key-find (canonical n) h k, e)
          (sym (if_same (mem_bytes (map canonical names) k) none))
    | inr e ↦ rw (del_all-find names (del n h) k, delete_key-find (canonical n) h k, e) refl
  ]

  del_all-append :
      (xs ys : List Bytes) (h : Header) → del_all ys (del_all xs h) ≡ del_all (xs ++ ys) h
  unfolding del_all
  del_all-append [] ys h = refl
  del_all-append (x ∷ xs) ys h = del_all-append xs ys (del x h)

  del_tokens-tokens : (fs : List Bytes) (h : Header) → del_tokens fs h ≡ del_all (tokens fs) h
  unfolding del_tokens del_all
  del_tokens-tokens [] h = refl
  del_tokens-tokens (f ∷ fs) h = elim (Bool-cases (is_empty (trim_space f))) [
    | inl e ↦ rw e (del_tokens-tokens fs h)
    | inr e ↦ rw e (del_tokens-tokens fs (del (trim_space f) h))
  ]

  del_values-named_by : (vs : List Bytes) (h : Header) → del_values vs h ≡ del_all (named_by vs) h
  unfolding del_values del_all
  del_values-named_by [] h = refl
  del_values-named_by (v ∷ vs) h =
      rw
        (
          del_tokens-tokens (split_commas v) h,
          del_values-named_by vs (del_all (tokens (split_commas v)) h),
        )
        (del_all-append (tokens (split_commas v)) (named_by vs) h)

  -- What `stripHopByHop` leaves of a header: a key has no values exactly if it is Connection, one of the fixed list of
  -- hop-by-hop headers, or named by a token in the values of Connection; every other key keeps
  -- its values.
  pub strip_hop_by_hop-find :
      (h : Header) (k : Bytes)
      → find_header (strip_hop_by_hop h) k
        ≡ (if mem_bytes (hop_keys h) k then none else find_header h k)
  unfolding strip_hop_by_hop del_all
  strip_hop_by_hop-find h k =
      let named = named_by (values h (bytes "Connection")) in
      rw (del_values-named_by (values h (bytes "Connection")) h) (
        ap (λ g. find_header g k) (del_all-append named (bytes "Connection" ∷ hop_by_hop) h)
        ∙ del_all-find (named ++ (bytes "Connection" ∷ hop_by_hop)) h k)
