-- ===== src/Common/Subsequences.antt =====
-- Laws of `Subsequence`.
use mathlib.Core.List.{List, [], ◌∷◌, ◌++◌}
use vsockd.Common.Lists.{Subsequence, done, keep, skip}

module _ {ℓ} {A : Type ℓ} where
  Subsequence-refl : (xs : List A) → Subsequence xs xs
  Subsequence-refl [] = done
  Subsequence-refl (x ∷ xs) = keep x (Subsequence-refl xs)

  Subsequence-trans :
      {ys zs : List A} → Subsequence ys zs → {xs : List A} → Subsequence xs ys → Subsequence xs zs
  Subsequence-trans done s = s
  Subsequence-trans (skip z t) s = skip z (Subsequence-trans t s)
  Subsequence-trans (keep y t) (keep x s) = keep x (Subsequence-trans t s)
  Subsequence-trans (keep z t) (skip y s) = skip y (Subsequence-trans t s)

  Subsequence-append_left :
      (pre : List A) {xs ys : List A} → Subsequence xs ys → Subsequence (pre ++ xs) (pre ++ ys)
  Subsequence-append_left [] s = s
  Subsequence-append_left (p ∷ pre) s = keep p (Subsequence-append_left pre s)

  Subsequence-of-append : (gone xs : List A) → Subsequence xs (gone ++ xs)
  Subsequence-of-append [] xs = Subsequence-refl xs
  Subsequence-of-append (g ∷ gone) xs = skip g (Subsequence-of-append gone xs)

  -- leaving out a stretch in the middle
  pub Subsequence-drop_middle :
      (pre gone xs : List A) {ys : List A}
      → Subsequence (pre ++ (gone ++ xs)) ys
      → Subsequence (pre ++ xs) ys
  Subsequence-drop_middle pre gone xs s =
      Subsequence-trans s (Subsequence-append_left pre (Subsequence-of-append gone xs))

  pub Subsequence-concat :
      {xs ys : List A} (a : A) → Subsequence xs ys → Subsequence (xs ++ a ∷ []) (ys ++ a ∷ [])
  Subsequence-concat a done = keep a done
  Subsequence-concat a (keep x s) = keep x (Subsequence-concat a s)
  Subsequence-concat a (skip y s) = skip y (Subsequence-concat a s)
