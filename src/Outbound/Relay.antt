-- ===== src/Outbound/Relay.antt =====
-- internal/outbound/logrelay.go: the loop of `handleLogRelay` that cuts a connection's stream into
-- records. The stream is its bytes up to its end; `render` is the enricher's `emit`; `sink_ok i` is
-- whether the i-th write to the sink succeeds. `max_line` is the limit in force.
-- Counters and log messages are left out, and a read error ends the stream as its end does.
pub mod Lines
pub mod Records
use vsockd.Common.{
  ℕ, zero, suc, ◌+◌, ◌-◌, Bool, true, false, Option, none, some, List, [], ◌∷◌, ◌++◌, max, ◌^◌,
  length, take, get_elem?, if◌then◌else◌, ltb, ◌==◌, ℤ, pos, negsuc, Outcome, ok, err, panic,
  no_fuel, ◌>>=◌,
}
use vsockd.Go.Strings.{Bytes, is_empty}

abbrev pub newline : ℕ
newline = b'\n'

pub data Ending : Type 0 where
  at_newline at_full at_eof : Ending

-- What `bufio.Reader.ReadSlice('\n')` returns, and the stream behind it.
pub record Slice : Type 0 where
  pub text : Bytes
  pub ending : Ending
  pub rest : Bytes

abbrev before : ℕ → Slice → Slice
before c s = record s { text = c ∷ s.text }

-- `ReadSlice('\n')` with `n` bytes left in the buffer: a full buffer is reported before the stream's end
unfoldable pub read_slice : ℕ → Bytes → Slice
read_slice zero s = record { text = []; ending = at_full; rest = s }
read_slice (suc n) [] = record { text = []; ending = at_eof; rest = [] }
read_slice (suc n) (c ∷ s) =
    if c == newline
    then record { text = c ∷ []; ending = at_newline; rest = s }
    else before c (read_slice n s)

abbrev pub ends_with : Bytes → ℕ → Bool
ends_with b c = elim (get_elem? b (length b - 1)) [ none ↦ false | some x ↦ x == c ]

abbrev pub drop_last : Bytes → Bytes
drop_last b = take (length b - 1) b

abbrev pub drop_return : Bytes → Bytes
drop_return b = if ends_with b b'\r' then drop_last b else b

-- `dropNewline`
unfoldable pub drop_newline : Bytes → Bytes
drop_newline b = if ends_with b newline then drop_return (drop_last b) else b

-- `NewReaderSize(c, maxLine+1)`: bufio takes at least 16
abbrev pub buffer_size : ℕ → ℕ
buffer_size max_line = max 16 (suc max_line)

-- `discardToNewline`: the stream behind the next newline, or `none` at the stream's end
unfoldable pub discard_to_newline : ℕ → ℕ → Bytes → Outcome (Unit {0}) (Option Bytes)
discard_to_newline zero size s = no_fuel
discard_to_newline (suc fuel) size s =
    let cut = read_slice size s in
    elim cut.ending [
      | at_full ↦ discard_to_newline fuel size cut.rest
      | at_newline ↦ ok (some cut.rest)
      | at_eof ↦ ok none
    ]

-- the payload of a slice, and whether it is truncated
unfoldable pub payload : ℕ → Slice → Bytes × Bool
payload max_line cut = elim cut.ending [
  | at_full ↦ (if ltb max_line (length cut.text) then take max_line cut.text else cut.text, true)
  | _ ↦ (drop_newline cut.text, false)
]

-- where the loop goes on behind a slice
unfoldable pub resume : ℕ → Slice → Outcome (Unit {0}) (Option Bytes)
resume size cut = elim cut.ending [
  | at_full ↦ discard_to_newline (suc (length cut.rest)) size cut.rest
  | at_newline ↦ ok (some cut.rest)
  | at_eof ↦ ok none
]

abbrev pub continue_with :
    (Bytes → Outcome (Unit {0}) (List Bytes)) → Option Bytes → Outcome (Unit {0}) (List Bytes)
continue_with loop none = ok []
continue_with loop (some s) = loop s

abbrev pub put {ℓ} : {A : Type ℓ} → A → Outcome (Unit {0}) (List A) → Outcome (Unit {0}) (List A)
put a (ok xs) = ok (a ∷ xs)
put a (err e) = err e
put a panic = panic
put a no_fuel = no_fuel

module _ (render : Bytes → Bool → Bytes) (sink_ok : ℕ → Bool) where
  -- the loop of `handleLogRelay`, with `i` writes done: what the later writes put in the sink
  unfoldable pub relay : ℕ → ℕ → ℕ → Bytes → Outcome (Unit {0}) (List Bytes)
  relay zero max_line i s = no_fuel
  relay (suc fuel) max_line i s =
      let cut = read_slice (buffer_size max_line) s in
      let out = render (payload max_line cut).0 (payload max_line cut).1 ++ newline ∷ [] in
      let next = resume (buffer_size max_line) cut in
      if is_empty cut.text
      then next >>= continue_with (relay fuel max_line i)
      else if sink_ok i
      then put out (next >>= continue_with (relay fuel max_line (suc i)))
      else ok []
