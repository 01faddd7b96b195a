-- ===== src/Inbound/Sni/Extensions.antt =====
-- internal/inbound/sni.go: the encoding of vectors, names and extensions (RFC 8446, RFC 6066).
use mathlib.Core.List.{append_assoc}
use vsockd.Common.{
  ℕ, zero, suc, ◌+◌, ◌-◌, ◌*◌, ◌/◌, ◌%◌, ◌≤◌, ◌<◌, ◌≡◌, ◌≢◌, refl, ap, ◌∙◌, true, false, List, [],
  ◌∷◌, ◌++◌, if◌then◌else◌, ltb, leb, ◌==◌, length, take, Outcome, ok, err, arith, length-append,
  All, take-append, drop-append, le→leb,
}
use vsockd.Go.Strings.{Bytes, to_lower}
use vsockd.Inbound.Sni
use vsockd.Inbound.Sni.Total.{read_name-cons, read_extension-cons, read_vec8-cons, read_vec16-cons}

-- Vectors with a length prefix of one and of two bytes.
abbrev pub vec8 : Bytes → Bytes
vec8 v = length v ∷ v

abbrev pub vec16 : Bytes → Bytes
vec16 v = (length v / 256) ∷ (length v % 256) ∷ v

-- a typed entry: of a ServerNameList, and of the extensions
abbrev name_entry : ℕ × Bytes → Bytes
name_entry n = n.0 ∷ vec16 n.1

abbrev pub extension : ℕ × Bytes → Bytes
extension e = (e.0 / 256) ∷ (e.0 % 256) ∷ vec16 e.1

abbrev pub concat : (ℕ × Bytes → Bytes) → List (ℕ × Bytes) → Bytes
concat f [] = []
concat f (x ∷ xs) = f x ++ concat f xs

ltb-append : (v rest : Bytes) → ltb (length (v ++ rest)) (length v) ≡ false
ltb-append v rest = ground (arith, length-append v rest)

pub joined : (n : ℕ) → n / 256 * 256 + n % 256 ≡ n
joined n = omega arith

pub read_vec8-vec8 : (v rest : Bytes) → Sni.read_vec8 (vec8 v ++ rest) ≡ ok (v, rest)
read_vec8-vec8 v rest =
    read_vec8-cons (length v) (v ++ rest) ∙ rw (ltb-append v rest, take-append, drop-append) refl

pub read_vec16-vec16 : (v rest : Bytes) → Sni.read_vec16 (vec16 v ++ rest) ≡ ok (v, rest)
read_vec16-vec16 v rest =
    read_vec16-cons (length v / 256) (length v % 256) (v ++ rest)
    ∙ rw (joined, ltb-append v rest, take-append, drop-append) refl

read_name-entry :
    (t : ℕ) (name rest : Bytes) → Sni.read_name (name_entry (t, name) ++ rest) ≡ ok (t, name, rest)
read_name-entry t name rest =
    read_name-cons t (length name / 256) (length name % 256) (name ++ rest)
    ∙ rw (joined, ltb-append name rest, take-append, drop-append) refl

read_extension-extension :
    (t : ℕ) (ext rest : Bytes) → Sni.read_extension (extension (t, ext) ++ rest) ≡ ok (t, ext, rest)
read_extension-extension t ext rest =
    read_extension-cons (t / 256) (t % 256) (length ext / 256) (length ext % 256) (ext ++ rest)
    ∙ rw (joined, joined, ltb-append ext rest, take-append, drop-append) refl

pub long_enough : (k : ℕ) (xs ys : Bytes) → k ≤ length xs → leb k (length (xs ++ ys)) ≡ true
long_enough k xs ys h = le→leb k _ (omega (arith, length-append xs ys))

walk_names-step :
    (fuel t : ℕ) (name rest : Bytes)
    → Sni.walk_names (suc fuel) (name_entry (t, name) ++ rest)
      ≡ Sni.next_name (Sni.walk_names fuel) (t, name, rest)
unfolding Sni.walk_names
walk_names-step fuel t name rest =
    rw (long_enough 3 (name_entry (t, name)) rest (omega arith), read_name-entry t name rest) refl

walk_extensions-step :
    (fuel t : ℕ) (ext rest : Bytes)
    → Sni.walk_extensions (suc fuel) (extension (t, ext) ++ rest)
      ≡ Sni.next_extension (Sni.walk_extensions fuel) (t, ext, rest)
unfolding Sni.walk_extensions
walk_extensions-step fuel t ext rest =
    rw (long_enough 4 (extension (t, ext)) rest (omega arith), read_extension-extension t ext rest)
      refl

abbrev pub OtherType : ℕ × Bytes → Type 0
OtherType e = e.0 ≢ 0

ne-false : (t : ℕ) → t ≢ 0 → (t == 0) ≡ false
ne-false t h = ground arith

next_name-other :
    (again : Bytes → Outcome Sni.Error Bytes) (t : ℕ) (name rest : Bytes)
    → t ≢ 0
    → Sni.next_name again (t, name, rest) ≡ again rest
unfolding Sni.next_name
next_name-other again t name rest h = rw (ne-false t h) refl

next_extension-other :
    (again : Bytes → Outcome Sni.Error Bytes) (t : ℕ) (ext rest : Bytes)
    → t ≢ 0
    → Sni.next_extension again (t, ext, rest) ≡ again rest
unfolding Sni.next_extension
next_extension-other again t ext rest h = rw (ne-false t h) refl

-- the entries before the first host_name are passed over
walk_names-entries :
    (others : List (ℕ × Bytes)) (host rest : Bytes) (fuel : ℕ)
    → All OtherType others
    → host ≢ []
    → length (concat name_entry others ++ (name_entry (0, host) ++ rest)) < fuel
    → Sni.walk_names fuel (concat name_entry others ++ (name_entry (0, host) ++ rest))
      ≡ ok (to_lower host)
walk_names-entries others host rest zero a ne h = absurd (omega arith)
walk_names-entries [] host rest (suc fuel) a ne h =
    walk_names-step fuel 0 host rest ∙ (unfold Sni.next_name in ground (arith, ne))
walk_names-entries ((t, name) ∷ others) host rest (suc fuel) a ne h =
    let tail = concat name_entry others ++ (name_entry (0, host) ++ rest) in
    rw
      (append_assoc (name_entry (t, name)) (concat name_entry others)
        (name_entry (0, host) ++ rest))
      (walk_names-step fuel t name tail
        ∙ next_name-other (Sni.walk_names fuel) t name tail a.0
        ∙ walk_names-entries others host rest fuel a.1 ne (
            omega (
              arith,
              length-append (name_entry (t, name)) tail,
              ap length (
                  append_assoc (name_entry (t, name)) (concat name_entry others)
                    (name_entry (0, host) ++ rest)),
            )))

pub sub-zero : (n : ℕ) → n - 0 ≡ n
sub-zero n = omega arith

parse_sni_extension-cons :
    (hi lo : ℕ) (b : Bytes)
    → let n = hi * 256 + lo in
      Sni.parse_sni_extension (hi ∷ lo ∷ b) ≡ (
        if ltb (length b) n
        then err Sni.list_truncated
        else Sni.walk_names (suc (length (take n b))) (take n b))
unfolding Sni.parse_sni_extension
parse_sni_extension-cons hi lo b = ground (arith, sub-zero (hi * 256 + lo))

parse_sni_extension-vec16 :
    (list more : Bytes)
    → Sni.parse_sni_extension (vec16 list ++ more) ≡ Sni.walk_names (suc (length list)) list
parse_sni_extension-vec16 list more =
    parse_sni_extension-cons (length list / 256) (length list % 256) (list ++ more)
    ∙ rw (joined, ltb-append list more, take-append) refl

-- the data of a server_name extension: other names, the host, more names, and more bytes
pub record Names : Type 0 where
  pub others : List (ℕ × Bytes)
  pub host : Bytes
  pub after : Bytes
  pub more : Bytes

abbrev pub server_names : Names → Bytes
server_names n = vec16 (concat name_entry n.others ++ (name_entry (0, n.host) ++ n.after)) ++ n.more

parse_sni_extension-server_names :
    (n : Names)
    → All OtherType n.others
    → n.host ≢ []
    → Sni.parse_sni_extension (server_names n) ≡ ok (to_lower n.host)
parse_sni_extension-server_names n a ne =
    parse_sni_extension-vec16 _ n.more
    ∙ walk_names-entries n.others n.host n.after _ a ne (omega arith)

-- the extensions before the server_name are passed over
pub walk_extensions-entries :
    (others : List (ℕ × Bytes)) (n : Names) (rest : Bytes) (fuel : ℕ)
    → All OtherType others
    → All OtherType n.others
    → n.host ≢ []
    → length (concat extension others ++ (extension (0, server_names n) ++ rest)) < fuel
    → Sni.walk_extensions fuel (concat extension others ++ (extension (0, server_names n) ++ rest))
      ≡ ok (to_lower n.host)
walk_extensions-entries others n rest zero a b ne h = absurd (omega arith)
walk_extensions-entries [] n rest (suc fuel) a b ne h =
    walk_extensions-step fuel 0 (server_names n) rest
    ∙ (unfold Sni.next_extension in parse_sni_extension-server_names n b ne)
walk_extensions-entries ((t, ext) ∷ others) n rest (suc fuel) a b ne h =
    let last = extension (0, server_names n) ++ rest in
    let tail = concat extension others ++ last in
    rw (append_assoc (extension (t, ext)) (concat extension others) last) (
      walk_extensions-step fuel t ext tail
      ∙ next_extension-other (Sni.walk_extensions fuel) t ext tail a.0
      ∙ walk_extensions-entries others n rest fuel a.1 b ne (
          omega (
            arith,
            length-append (extension (t, ext)) tail,
            ap length (append_assoc (extension (t, ext)) (concat extension others) last),
          )))
