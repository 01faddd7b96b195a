-- ===== src/Go/Slices.antt =====
-- Indexing and slicing. A bound out of range is a run-time panic.
use vsockd.Common.{
  ℕ, ◌-◌, ◌≤◌, ◌≡◌, ◌&&◌, Option, none, some, List, leb, if◌then◌else◌, length, take, drop,
  get_elem?, Outcome, ok, panic, le→leb,
}

module _ {ℓ κ} {E : Type ℓ} {A : Type κ} where
  abbrev of_option : Option A → Outcome E A
  of_option none = panic
  of_option (some a) = ok a

  -- `b[i]`
  unfoldable pub index : List A → ℕ → Outcome E A
  index b i = of_option (get_elem? b i)

  -- `b[lo:hi]`, with the length of `b` for its capacity
  unfoldable pub slice : List A → ℕ → ℕ → Outcome E (List A)
  slice b lo hi = if leb lo hi && leb hi (length b) then ok (take (hi - lo) (drop lo b)) else panic

  -- `b[lo:]`
  unfoldable pub slice_from : List A → ℕ → Outcome E (List A)
  slice_from b lo = if leb lo (length b) then ok (drop lo b) else panic

  slice_lem :
      (b : List A) (lo hi : ℕ)
      → lo ≤ hi
      → hi ≤ length b
      → slice b lo hi ≡ ok (take (hi - lo) (drop lo b))
  unfolding slice
  slice_lem b lo hi h k = rw (le→leb lo hi h, le→leb hi (length b) k)

  pub slice_from_lem : (b : List A) (lo : ℕ) → lo ≤ length b → slice_from b lo ≡ ok (drop lo b)
  unfolding slice_from
  slice_from_lem b lo h = rw (le→leb lo (length b) h)
