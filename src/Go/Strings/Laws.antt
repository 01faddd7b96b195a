-- ===== src/Go/Strings/Laws.antt =====
-- Laws of the string functions.
use vsockd.Common.{
  ℕ, zero, suc, ◌<◌, ◌≡◌, refl, ap, ◌↔◌, inl, inr, true, false, none, some, [], ◌∷◌, ◌++◌, length,
  arith, Bool-cases, length-append, drop,
}
use vsockd.Go.Strings.{
  Bytes, equal, lower_byte, to_lower, has_suffix, contains_byte, index_byte, last_index_byte,
}

pub equal_iff : (s t : Bytes) → (equal s t ≡ true) ↔ (s ≡ t)
unfolding equal
equal_iff [] [] = ground arith
equal_iff [] (_ ∷ _) = ground arith
equal_iff (_ ∷ _) [] = ground arith
equal_iff (c ∷ s) (d ∷ t) = ground (arith, equal_iff s t)

equal_refl : (a : Bytes) → equal a a ≡ true
equal_refl a = (equal_iff a a).1 refl

lower_byte_idem : (c : ℕ) → lower_byte (lower_byte c) ≡ lower_byte c
unfolding lower_byte
lower_byte_idem c = ground arith

pub to_lower_idem : (s : Bytes) → to_lower (to_lower s) ≡ to_lower s
unfolding to_lower
to_lower_idem [] = refl
to_lower_idem (c ∷ cs) = ground (arith, to_lower_idem cs)

pub length-to_lower : (s : Bytes) → length (to_lower s) ≡ length s
unfolding to_lower
length-to_lower [] = refl
length-to_lower (c ∷ cs) = ap suc (length-to_lower cs)

pub to_lower-append : (s t : Bytes) → to_lower (s ++ t) ≡ to_lower s ++ to_lower t
unfolding to_lower
to_lower-append [] t = refl
to_lower-append (c ∷ cs) t = rw (to_lower-append cs t)

pub to_lower-drop : (n : ℕ) (s : Bytes) → to_lower (drop n s) ≡ drop n (to_lower s)
unfolding to_lower
to_lower-drop zero s = refl
to_lower-drop (suc n) [] = refl
to_lower-drop (suc n) (c ∷ cs) = to_lower-drop n cs

-- Lowering keeps every byte that is no letter where it is.
pub contains_byte-to_lower :
    (s : Bytes) (b : ℕ) → b < b'A' → contains_byte (to_lower s) b ≡ contains_byte s b
unfolding contains_byte to_lower
contains_byte-to_lower [] b h = refl
contains_byte-to_lower (c ∷ cs) b h = ground (arith, contains_byte-to_lower cs b h)

abbrev pub Ends : Bytes → Bytes → Type 0
Ends s p = (label : Bytes) × (s ≡ label ++ p)

pub has_suffix_sound : (s p : Bytes) → has_suffix s p ≡ true → Ends s p
unfolding has_suffix
has_suffix_sound [] p h = ([], (equal_iff [] p).0 h)
has_suffix_sound (x ∷ s) p h = elim (Bool-cases (equal (x ∷ s) p)) [
  | inl e ↦ ([], (equal_iff (x ∷ s) p).0 e)
  | inr n ↦ let (label, e) = has_suffix_sound s p (ground arith) in (x ∷ label, ap (◌∷◌ x) e)
]

pub has_suffix_complete : (label p : Bytes) → has_suffix (label ++ p) p ≡ true
unfolding has_suffix
has_suffix_complete [] [] = equal_refl []
has_suffix_complete [] (y ∷ p) = rw (equal_refl (y ∷ p))
has_suffix_complete (x ∷ label) p = ground (arith, has_suffix_complete label p)

pub has_suffix_iff : (s p : Bytes) → (has_suffix s p ≡ true) ↔ Ends s p
has_suffix_iff s p = (has_suffix_sound s p, λ (label, e). rw e (has_suffix_complete label p))

pub has_suffix_long : (s p : Bytes) → length s < length p → has_suffix s p ≡ false
has_suffix_long s p h = elim (Bool-cases (has_suffix s p)) [
  | inl t ↦
      let (label, e) = has_suffix_sound s p t in
      absurd (omega (arith, ap length e, length-append label p))
  | inr f ↦ f
]

-- The first and the last place of a byte in a text that does not hold it before, or after.
pub index_byte-append :
    (s t : Bytes) (b : ℕ) → contains_byte s b ≡ false → index_byte (s ++ b ∷ t) b ≡ some (length s)
unfolding index_byte contains_byte
index_byte-append [] t b h = ground arith
index_byte-append (c ∷ cs) t b h = ground (arith, index_byte-append cs t b)

last_index_byte-none : (t : Bytes) (b : ℕ) → contains_byte t b ≡ false → last_index_byte t b ≡ none
unfolding last_index_byte contains_byte
last_index_byte-none [] b h = refl
last_index_byte-none (c ∷ cs) b h = ground (arith, last_index_byte-none cs b)

pub last_index_byte-append :
    (s t : Bytes) (b : ℕ)
    → contains_byte t b ≡ false
    → last_index_byte (s ++ b ∷ t) b ≡ some (length s)
unfolding last_index_byte
last_index_byte-append [] t b h = ground (arith, last_index_byte-none t b h)
last_index_byte-append (c ∷ cs) t b h = ground (arith, last_index_byte-append cs t b h)
