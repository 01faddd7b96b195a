-- ===== src/Go/Net/Laws.antt =====
-- Laws of `SplitHostPort` on a joined host and port.
use native.Mathlib.Numerals.{add-one}
use vsockd.Common.{
  ℕ, suc, ◌≡◌, refl, false, ◌||◌, some, [], ◌∷◌, ◌++◌, length, drop, arith, take-append,
}
use vsockd.Go.Strings.{Bytes, contains_byte}
use vsockd.Go.Strings.Laws.{last_index_byte-append}
use vsockd.Go.Net.{split_host_port, opens}

contains_byte-append :
    (s t : Bytes) (b : ℕ) → contains_byte (s ++ t) b ≡ (contains_byte s b || contains_byte t b)
unfolding contains_byte
contains_byte-append [] t b = refl
contains_byte-append (c ∷ cs) t b = ground (arith, contains_byte-append cs t b)

-- A text of none of the bytes that `SplitHostPort` looks for.
pub record IsPlain (s : Bytes) : Type 0 where
  pub no_colon : contains_byte s b':' ≡ false
  pub no_open : contains_byte s b'[' ≡ false
  pub no_close : contains_byte s b']' ≡ false

opens-append : (h t : Bytes) → contains_byte h b'[' ≡ false → opens (h ++ b':' ∷ t) ≡ false
unfolding contains_byte
opens-append [] t e = refl
opens-append (c ∷ cs) t e = ground arith

drop-append_suc : (h t : Bytes) (b : ℕ) → drop (suc (length h)) (h ++ b ∷ t) ≡ t
drop-append_suc [] t b = refl
drop-append_suc (c ∷ cs) t b = drop-append_suc cs t b

pub split_host_port-join :
    (h t : Bytes) → IsPlain h → IsPlain t → split_host_port (h ++ b':' ∷ t) ≡ some (h, t)
unfolding split_host_port
split_host_port-join h t p q =
    rw (last_index_byte-append h t b':' q.no_colon, opens-append h t p.no_open)
      (rw
        (
          take-append h (b':' ∷ t),
          p.no_colon,
          contains_byte-append h (b':' ∷ t) b'[',
          contains_byte-append h (b':' ∷ t) b']',
          p.no_open,
          p.no_close,
          add-one,
          drop-append_suc,
        )
        (unfold contains_byte in ground (arith, q.no_open, q.no_close)))
