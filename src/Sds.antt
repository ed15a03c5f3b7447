-- ===== src/Sds.antt =====
-- src/sds.h and src/sds.c: the counted strings, with sdsRange. The buffer is the list of the
-- bytes that were allocated behind the header; an access behind its end is `none`.
pub mod Range
pub mod Append
pub mod Number
pub mod Create
pub mod Args
pub mod Printf
pub mod Edit
pub mod Tests
use jmeter_on_k8s.Prelude.{
  ℕ, suc, ◌+◌, ◌-◌, ◌%◌, ◌^◌, ◌≤◌, ◌<◌, ◌≡◌, Bool, true, false, ◌&&◌, not, Option, none, some, List,
  [], ◌∷◌, ◌++◌, ◌==◌, ltb, leb, if◌then◌else◌, ◌>>=◌, length, set, take, drop, get_or,
}
use jmeter_on_k8s.Prelude.Int.{ℤ, pos, negsuc}

pub record Sdshdr : Type 0 where
  pub len : ℕ
  pub free : ℕ
  pub buf : List ℕ

-- s[i] = c, which faults outside the buffer
abbrev pub store_byte : List ℕ → ℕ → ℕ → Option (List ℕ)
store_byte buf i c = if ltb i (length buf) then some (set buf i c) else none

-- if (i < 0) { i = len + i; if (i < 0) i = 0; }
abbrev pub from_end : ℕ → ℤ → ℕ
from_end len (pos n) = n
from_end len (negsuc n) = len - suc n

-- (start > end) ? 0 : (end - start) + 1
abbrev pub span : ℕ → ℕ → ℕ
span start last = if ltb last start then 0 else last - start + 1

-- new_len behind the tests of sdsRange
unfoldable pub range_len : ℕ → ℕ → ℕ → ℕ
range_len len start last =
    if span start last == 0
    then 0
    else if leb len start
    then 0
    else if leb len last
    then span start (len - 1)
    else span start last

-- if (start && new_len) memmove(sh->buf, (sh->buf) + start, new_len);
unfoldable pub move_down : List ℕ → ℕ → ℕ → List ℕ
move_down buf start n =
    if not (start == 0) && not (n == 0) then take n (drop start buf) ++ drop n buf else buf

-- The lengths are below 2 ^ 31, so that they are ints. `last` is the parameter end. When new_len
-- is 0, nothing moves, whatever start is.
unfoldable pub sds_range : Sdshdr → ℤ → ℤ → Option Sdshdr
sds_range s start last =
    if s.len == 0
    then some s
    else (let n = range_len s.len (from_end s.len start) (from_end s.len last) in
        store_byte (move_down s.buf (from_end s.len start) n) n 0 >>= λ buf.
        some (record { len = n; free = (s.free + (s.len - n)) % 2 ^ 32; buf = buf }))

-- sizeof(struct Sdshdr) is 8.
abbrev pub sds_alloc_size : Sdshdr → ℕ
sds_alloc_size s = 8 + s.len + s.free + 1

-- The source keeps `len` bytes behind the header, and no place for the byte that ends the text.
abbrev pub sds_remove_free_space : Sdshdr → Sdshdr
sds_remove_free_space s = record s { free = 0; buf = take s.len s.buf }
