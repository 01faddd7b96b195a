-- ===== src/Outbound/Relay/Lines.antt =====
-- internal/outbound/logrelay.go: the lines of a stream, and what ReadSlice cuts off it.
use vsockd.Common.{
  ℕ, zero, suc, ◌-◌, ◌<◌, ◌≡◌, refl, ◌∙◌, Bool, true, false, Option, none, some, List, [], ◌∷◌,
  ◌++◌, length, take, get_elem?, if◌then◌else◌, ltb, ◌==◌, ok, arith, Bool-cases, length-append,
  take-append, inl, inr,
}
use mathlib.Core.List.{append-nil}
use vsockd.Go.Strings.{Bytes, contains_byte}
use vsockd.Outbound.Relay.{
  newline, Slice, at_newline, at_full, at_eof, read_slice, ends_with, drop_last, drop_return,
  drop_newline, discard_to_newline,
}

-- A line, and whether a newline ends it.
abbrev pub Line : Type 0
Line = Bytes × Bool

abbrev push : ℕ → List Line → List Line
push c [] = (c ∷ [], false) ∷ []
push c (l ∷ ls) = (c ∷ l.0, l.1) ∷ ls

-- the lines of a stream; an empty line at its end is none
unfoldable pub lines : Bytes → List Line
lines [] = []
lines (c ∷ s) = if c == newline then ([], true) ∷ lines s else push c (lines s)

-- A line of at most `max_line` bytes is kept whole, without the return before its newline; of a
-- longer one, that many bytes are kept, and the record says so.
abbrev pub record_of : ℕ → Line → Bytes × Bool
record_of max_line l =
    if ltb max_line (length l.0)
    then (take max_line l.0, true)
    else (if l.1 then drop_return l.0 else l.0, false)

-- the writes up to the first that fails, from the i-th
abbrev pub until_failure : (ℕ → Bool) → ℕ → List Bytes → List Bytes
until_failure sink_ok i [] = []
until_failure sink_ok i (x ∷ xs) = if sink_ok i then x ∷ until_failure sink_ok (suc i) xs else []

-- what `ReadSlice` cuts off
pub data Cut (n : ℕ) : Bytes → Slice → Type 0 where
  line :
      (x rest : Bytes)
      → contains_byte x newline ≡ false
      → length x < n
      → Cut n
          (x ++ newline ∷ rest)
          (record { text = x ++ newline ∷ []; ending = at_newline; rest = rest })
  full :
      (x rest : Bytes)
      → contains_byte x newline ≡ false
      → length x ≡ n
      → Cut n (x ++ rest) (record { text = x; ending = at_full; rest = rest })
  eof :
      (x : Bytes)
      → contains_byte x newline ≡ false
      → length x < n
      → Cut n x (record { text = x; ending = at_eof; rest = [] })

Cut-suc :
    (n c : ℕ) {s : Bytes} {t : Slice}
    → c == newline ≡ false
    → Cut n s t
    → Cut (suc n) (c ∷ s) (record t { text = c ∷ t.text })
unfolding contains_byte
Cut-suc n c e (line x rest h k) = line (c ∷ x) rest (ground (arith, e, h)) (omega (arith, k))
Cut-suc n c e (full x rest h k) = full (c ∷ x) rest (ground (arith, e, h)) (omega (arith, k))
Cut-suc n c e (eof x h k) = eof (c ∷ x) (ground (arith, e, h)) (omega (arith, k))

same_byte : (c d : ℕ) → c == d ≡ true → c ≡ d
same_byte c d e = ground arith

pub read_slice-Cut : (n : ℕ) (s : Bytes) → Cut n s (read_slice n s)
unfolding read_slice contains_byte
read_slice-Cut zero s = full [] s refl refl
read_slice-Cut (suc n) [] = eof [] refl (omega arith)
read_slice-Cut (suc n) (c ∷ s) = elim (Bool-cases (c == newline)) [
  | inl y ↦ rw (y, same_byte c newline y) (line [] s refl (omega arith))
  | inr m ↦ rw m (Cut-suc n c m (read_slice-Cut n s))
]

-- the lines of a text whose first part holds no newline
abbrev prepend : Bytes → List Line → List Line
prepend [] ls = ls
prepend (c ∷ x) ls = push c (prepend x ls)

pub lines-prepend :
    (x s : Bytes) → contains_byte x newline ≡ false → lines (x ++ s) ≡ prepend x (lines s)
unfolding lines contains_byte
lines-prepend [] s h = refl
lines-prepend (c ∷ x) s h = ground (arith, lines-prepend x s)

pub prepend-line :
    (x : Bytes) (l : Line) (ls : List Line) → prepend x (l ∷ ls) ≡ (x ++ l.0, l.1) ∷ ls
prepend-line [] l ls = refl
prepend-line (c ∷ x) l ls = rw (prepend-line x l ls) refl

pub prepend-nil : (c : ℕ) (x : Bytes) → prepend (c ∷ x) [] ≡ (c ∷ x, false) ∷ []
prepend-nil c [] = refl
prepend-nil c (d ∷ x) = rw (prepend-nil d x) refl

get_elem?-last : (x : Bytes) (c : ℕ) → get_elem? (x ++ c ∷ []) (length x) ≡ some c
get_elem?-last [] c = refl
get_elem?-last (d ∷ x) c = get_elem?-last x c

ends_with-last : (x : Bytes) (c : ℕ) → ends_with (x ++ c ∷ []) c ≡ true
ends_with-last x c =
    let n : length (x ++ c ∷ []) - 1 ≡ length x = omega (arith, length-append x (c ∷ [])) in
    rw (ends_with, n, get_elem?-last x c) (ground arith)

drop_last-last : (x : Bytes) (c : ℕ) → drop_last (x ++ c ∷ []) ≡ x
drop_last-last x c =
    let n : length (x ++ c ∷ []) - 1 ≡ length x = omega (arith, length-append x (c ∷ [])) in
    rw n (take-append x (c ∷ []))

pub drop_newline-line : (x : Bytes) → drop_newline (x ++ newline ∷ []) ≡ drop_return x
unfolding drop_newline
drop_newline-line x = rw (ends_with-last x newline, drop_last-last x newline) refl

get_elem?-other :
    (x : Bytes) (i b : ℕ)
    → contains_byte x b ≡ false
    → elim (get_elem? x i) [ none ↦ false | some c ↦ c == b ] ≡ false
unfolding contains_byte
get_elem?-other [] i b h = refl
get_elem?-other (c ∷ x) zero b h = ground arith
get_elem?-other (c ∷ x) (suc i) b h = get_elem?-other x i b (ground arith)

pub drop_newline-other : (x : Bytes) → contains_byte x newline ≡ false → drop_newline x ≡ x
unfolding drop_newline
drop_newline-other x h = rw (get_elem?-other x (length x - 1) newline h) refl

-- the stream behind the first newline
abbrev pub after : Bytes → Option Bytes
after [] = none
after (c ∷ s) = if c == newline then some s else after s

after-append : (x s : Bytes) → contains_byte x newline ≡ false → after (x ++ s) ≡ after s
unfolding contains_byte
after-append [] s h = refl
after-append (c ∷ x) s h = ground (arith, after-append x s)

after-free : (x : Bytes) → contains_byte x newline ≡ false → after x ≡ none
unfolding contains_byte
after-free [] h = refl
after-free (c ∷ x) h = ground (arith, after-free x)

after-newline : (x s : Bytes) → contains_byte x newline ≡ false → after (x ++ newline ∷ s) ≡ some s
after-newline x s h = after-append x (newline ∷ s) h ∙ refl

discard-Cut :
    (fuel n : ℕ) {s : Bytes} {t : Slice}
    → ((r : Bytes) → length r < fuel → discard_to_newline fuel (suc n) r ≡ ok (after r))
    → Cut (suc n) s t
    → length s < suc fuel
    → elim t.ending [
      | at_full ↦ discard_to_newline fuel (suc n) t.rest
      | at_newline ↦ ok (some t.rest)
      | at_eof ↦ ok none
    ]
      ≡ ok (after s)
discard-Cut fuel n ih (line x rest f k) h = rw (after-newline x rest f) refl
discard-Cut fuel n ih (full x rest f k) h =
    rw (after-append x rest f) (ih rest (omega (arith, h, k, length-append x rest)))
discard-Cut fuel n ih (eof x f k) h = rw (after-free x f) refl

pub discard_to_newline-after :
    (fuel n : ℕ) (s : Bytes) → length s < fuel → discard_to_newline fuel (suc n) s ≡ ok (after s)
unfolding discard_to_newline
discard_to_newline-after zero n s h = ground arith
discard_to_newline-after (suc fuel) n s h =
    discard-Cut fuel n (discard_to_newline-after fuel n) (read_slice-Cut (suc n) s) h

abbrev pub lines_after : Option Bytes → List Line
lines_after none = []
lines_after (some s) = lines s

pub record FirstLine (c : ℕ) (x s : Bytes) : Type 0 where
  pub more : Bytes
  pub ended : Bool
  pub split : prepend (c ∷ x) (lines s) ≡ ((c ∷ x) ++ more, ended) ∷ lines_after (after s)

pub first_line : (c : ℕ) (x s : Bytes) → FirstLine c x s
unfolding lines
first_line c x [] = record {
  more = [];
  ended = false;
  split = rw (prepend-nil c x, append-nil x) refl;
}
first_line c x (d ∷ s) = elim (Bool-cases (d == newline)) [
  | inl y ↦ record {
    more = [];
    ended = true;
    split = rw y (prepend-line (c ∷ x) ([], true) (lines s));
  }
  | inr m ↦
      let f = first_line d [] s in
      record {
        more = d ∷ f.more;
        ended = f.ended;
        split = rw (m, f.split) (prepend-line (c ∷ x) (d ∷ f.more, f.ended) _);
      }
]
