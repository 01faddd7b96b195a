-- ===== src/Outbound/Relay/Records.antt =====
-- internal/outbound/logrelay.go: the relay loop against the lines of the stream.
use vsockd.Common.{
  ℕ, zero, suc, ◌≤◌, ◌<◌, ◌≡◌, refl, sym, ap, ◌∙◌, Bool, true, false, Option, none, some, [], ◌∷◌,
  ◌++◌, length, take, ltb, ok, arith, map, Bool-cases, length-append, inl, inr,
}
use mathlib.Core.List.{append-nil}
use vsockd.Go.Strings.{Bytes, is_empty, contains_byte}
use vsockd.Outbound.Relay.{
  newline, Slice, at_newline, at_full, at_eof, read_slice, buffer_size, payload, resume, relay,
  continue_with,
}
use vsockd.Outbound.Relay.Lines.{
  Line, lines, record_of, until_failure, Cut, line, full, eof, lines_after, after, lines-prepend,
  prepend-line, prepend-nil, drop_newline-line, drop_newline-other, discard_to_newline-after,
  first_line, read_slice-Cut,
}

-- a slice, with what the loop makes of it
record Reads (max_line : ℕ) (s : Bytes) (t : Slice) : Type 0 where
  first : Line
  first_ok : payload max_line t ≡ record_of max_line first
  some_text : is_empty t.text ≡ false
  behind : Option Bytes
  behind_ok : resume (suc max_line) t ≡ ok behind
  split : lines s ≡ first ∷ lines_after behind
  shorter : (r : Bytes) → behind ≡ some r → length r < length s

after-shorter : (s r : Bytes) → after s ≡ some r → length r < length s
after-shorter [] r e = cc
after-shorter (c ∷ s) r e = ground (arith, after-shorter s r)

take-shorter : (n : ℕ) (x y : Bytes) → n ≤ length x → take n (x ++ y) ≡ take n x
take-shorter zero x y h = refl
take-shorter (suc n) [] y h = ground arith
take-shorter (suc n) (c ∷ x) y h = ap (◌∷◌ c) (take-shorter n x y (omega (arith, h)))

some_text-append : (x : Bytes) (c : ℕ) (y : Bytes) → is_empty (x ++ c ∷ y) ≡ false
some_text-append [] c y = refl
some_text-append (d ∷ x) c y = refl

long : (m n : ℕ) → m < n → ltb m n ≡ true
long m n h = ground arith

short : (m n : ℕ) → n < suc m → ltb m n ≡ false
short m n h = ground arith

line-Reads :
    (m : ℕ) (x rest : Bytes)
    → contains_byte x newline ≡ false
    → length x < suc m
    → Reads m
        (x ++ newline ∷ rest)
        (record { text = x ++ newline ∷ []; ending = at_newline; rest = rest })
unfolding payload resume lines
line-Reads m x rest h k = record {
  first = (x, true);
  first_ok = rw (drop_newline-line x, short m (length x) k) refl;
  some_text = some_text-append x newline [];
  behind = some rest;
  behind_ok = refl;
  split =
      lines-prepend x (newline ∷ rest) h
      ∙ (prepend-line x ([], true) (lines rest) ∙ rw (append-nil x) refl);
  shorter = λ r e. ground (arith, length-append x (newline ∷ rest));
}

full-Reads :
    (m c : ℕ) (x rest : Bytes)
    → contains_byte (c ∷ x) newline ≡ false
    → suc (length x) ≡ suc m
    → Reads m ((c ∷ x) ++ rest) (record { text = c ∷ x; ending = at_full; rest = rest })
unfolding payload resume
full-Reads m c x rest h k =
    let f = first_line c x rest in
    record {
      first = ((c ∷ x) ++ f.more, f.ended);
      first_ok =
          rw
            (
              long m (suc (length x)) (omega (arith, k)),
              long m (suc (length (x ++ f.more))) (omega (arith, k, length-append x f.more)),
              take-shorter m (c ∷ x) f.more (omega (arith, k)),
            )
            refl;
      some_text = refl;
      behind = after rest;
      behind_ok = discard_to_newline-after (suc (length rest)) m rest (omega arith);
      split = lines-prepend (c ∷ x) rest h ∙ f.split;
      shorter = λ r e. omega (arith, after-shorter rest r e, length-append x rest);
    }

eof-Reads :
    (m c : ℕ) (x : Bytes)
    → contains_byte (c ∷ x) newline ≡ false
    → suc (length x) < suc m
    → Reads m (c ∷ x) (record { text = c ∷ x; ending = at_eof; rest = [] })
unfolding payload resume lines
eof-Reads m c x h k = record {
  first = (c ∷ x, false);
  first_ok = rw (drop_newline-other (c ∷ x) h, short m (suc (length x)) k) refl;
  some_text = refl;
  behind = none;
  behind_ok = refl;
  split = ap lines (sym (append-nil (c ∷ x))) ∙ (lines-prepend (c ∷ x) [] h ∙ prepend-nil c x);
  shorter = λ r e. cc;
}

Cut-Reads : (m : ℕ) {s : Bytes} {t : Slice} → Cut (suc m) s t → is_empty s ≡ false → Reads m s t
Cut-Reads m (line x rest h k) e = line-Reads m x rest h k
Cut-Reads m (full [] rest h k) e = ground arith
Cut-Reads m (full (c ∷ x) rest h k) e = full-Reads m c x rest h k
Cut-Reads m (eof [] h k) e = cc
Cut-Reads m (eof (c ∷ x) h k) e = eof-Reads m c x h k

abbrev pub out_of : (Bytes → Bool → Bytes) → ℕ → Line → Bytes
out_of render m l = render (record_of m l).0 (record_of m l).1 ++ newline ∷ []

module _ (render : Bytes → Bool → Bytes) (sink_ok : ℕ → Bool) where
  buffer_size-lem : (m : ℕ) → 15 ≤ m → buffer_size m ≡ suc m
  buffer_size-lem m b = omega (arith, b)

  continue-lines :
      (fuel m i n : ℕ) (behind : Option Bytes)
      → ((r : Bytes)
          → length r < fuel
          → relay render sink_ok fuel m i r
            ≡ ok (until_failure sink_ok i (map (out_of render m) (lines r))))
      → ((r : Bytes) → behind ≡ some r → length r < n)
      → n < suc fuel
      → continue_with (relay render sink_ok fuel m i) behind
        ≡ ok (until_failure sink_ok i (map (out_of render m) (lines_after behind)))
  continue-lines fuel m i n none ih s h = refl
  continue-lines fuel m i n (some r) ih s h = ih r (omega (arith, s r refl, h))

  -- With a limit of at least 15 bytes, for which bufio takes the buffer asked for, and fuel beyond the
  -- length of the stream, the loop ends, and every line of the stream gives exactly one record, in
  -- order: a line of at most `m` bytes is rendered whole, a longer one cut to that many and marked
  -- truncated, with the rest of it skipped; the writing stops at the first write that the sink refuses.
  pub relay-lines :
      (fuel m i : ℕ) (s : Bytes)
      → 15 ≤ m
      → length s < fuel
      → relay render sink_ok fuel m i s
        ≡ ok (until_failure sink_ok i (map (out_of render m) (lines s)))
  unfolding relay read_slice resume lines
  relay-lines zero m i s b h = ground arith
  relay-lines (suc fuel) m i [] b h = rw (buffer_size, buffer_size-lem m b) refl
  relay-lines (suc fuel) m i (c ∷ s) b h =
      let r = Cut-Reads m (read_slice-Cut (suc m) (c ∷ s)) refl in
      let go = λ (j : ℕ).
        continue-lines fuel m j (suc (length s)) r.behind (λ t k. relay-lines fuel m j t b k)
          r.shorter h in
      rw (buffer_size-lem m b, r.some_text, r.behind_ok, r.first_ok, r.split)
        (elim (Bool-cases (sink_ok i)) [ inl y ↦ rw (y, go (suc i)) refl | inr n ↦ rw n refl ])
