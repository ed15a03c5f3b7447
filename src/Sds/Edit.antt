-- ===== src/Sds/Edit.antt =====
-- src/sds.c: the functions that change a string in its buffer, and sdsCmp. A byte is a number below
-- 256, as an unsigned char. The lengths are below 2 ^ 31.
pub mod Bytewise
pub mod Compare
pub mod Trim
pub mod Resize
pub mod Tests
use jmeter_on_k8s.Prelude.{
  ℕ, zero, suc, ◌+◌, ◌-◌, ◌%◌, ◌^◌, Bool, true, false, Option, none, some, List, [], ◌∷◌, ◌++◌,
  ◌==◌, ltb, leb, ◌&&◌, if◌then◌else◌, ◌>>=◌, length, drop, take, get_elem?, replicate,
}
use jmeter_on_k8s.Prelude.Int.{ℤ, pos, negsuc, sub_ℕ}
use jmeter_on_k8s.Libc.{tolower, toupper, memcmp, strchr, c_string}
use jmeter_on_k8s.Sds.{Sdshdr, store_byte}
use jmeter_on_k8s.Sds.Append.{sds_make_room_for, write_bytes}

-- for (j = ...; j < len; j++) s[j] = f(s[j]); where n rounds are left
unfoldable pub byte_loop : (ℕ → ℕ) → ℕ → List ℕ → ℕ → Option (List ℕ)
byte_loop f zero buf j = some buf
byte_loop f (suc n) buf j =
    get_elem? buf j >>= λ c. store_byte buf j (f c) >>= λ buf'. byte_loop f n buf' (j + 1)

unfoldable pub sds_to_upper : Sdshdr → Option Sdshdr
sds_to_upper s = byte_loop toupper s.len s.buf 0 >>= λ buf. some (record s { buf = buf })

unfoldable pub sds_to_lower : Sdshdr → Option Sdshdr
sds_to_lower s = byte_loop tolower s.len s.buf 0 >>= λ buf. some (record s { buf = buf })

-- The inner loop of sdsMapChars on one byte: from and to are as long as the pairs.
unfoldable pub map_char : List (ℕ × ℕ) → ℕ → ℕ
map_char [] c = c
map_char ((from, to) ∷ pairs) c = if c == from then to else map_char pairs c

unfoldable pub sds_map_chars : Sdshdr → List (ℕ × ℕ) → Option Sdshdr
sds_map_chars s pairs =
    byte_loop (map_char pairs) s.len s.buf 0 >>= λ buf. some (record s { buf = buf })

unfoldable pub sds_clear : Sdshdr → Option Sdshdr
sds_clear s = store_byte s.buf 0 0 >>= λ buf.
    some (record { len = 0; free = (s.free + s.len) % 2 ^ 32; buf = buf })

-- if (cmp == 0) return l1 - l2; return cmp;
unfoldable pub by_length : ℤ → ℕ → ℕ → ℤ
by_length (pos zero) l1 l2 = sub_ℕ l1 l2
by_length (pos (suc n)) l1 l2 = pos (suc n)
by_length (negsuc n) l1 l2 = negsuc n

-- sdsCmp, of which only the sign counts: l1 - l2 is read as an int.
unfoldable pub sds_cmp : Sdshdr → Sdshdr → ℤ
sds_cmp s1 s2 =
    let min_len = if ltb s1.len s2.len then s1.len else s2.len in
    by_length (memcmp min_len s1.buf s2.buf) s1.len s2.len

-- The bytes t, copied to the front of the buffer, and a NUL at the index n.
unfoldable pub put_text : List ℕ → List ℕ → ℕ → Option (List ℕ)
put_text buf t n = write_bytes buf 0 t >>= λ buf'. store_byte buf' n 0

-- while (sp <= end && strchr(c_set, *sp)) sp++; where k bytes are left up to end
unfoldable pub trim_start : List ℕ → List ℕ → ℕ → ℕ → Option ℕ
trim_start c_set buf zero sp = some sp
trim_start c_set buf (suc k) sp = get_elem? buf sp >>= λ c. elim (strchr c_set c) [
  | true ↦ trim_start c_set buf k (sp + 1)
  | false ↦ some sp
]

-- while (ep > start && strchr(c_set, *ep)) ep--; on ep + 1, since ep is -1 for an empty string
unfoldable pub trim_end : List ℕ → List ℕ → ℕ → Option ℕ
trim_end c_set buf zero = some 0
trim_end c_set buf (suc ep) = elim (ep == 0) [
  | true ↦ some 1
  | false ↦ get_elem? buf ep >>= λ c. elim (strchr c_set c) [
    | true ↦ trim_end c_set buf ep
    | false ↦ some (suc ep)
  ]
]

-- sdsTrim
unfoldable pub sds_trim : Sdshdr → List ℕ → Option Sdshdr
sds_trim s c_set = trim_start c_set s.buf s.len 0 >>= λ sp. trim_end c_set s.buf s.len >>= λ ep.
    put_text s.buf (take (ep - sp) (drop sp s.buf)) (ep - sp) >>= λ buf.
    some (record { len = ep - sp; free = (s.free + (s.len - (ep - sp))) % 2 ^ 32; buf = buf })

-- sdsCopyLen: t is the bytes that are copied; total_len is read again once room was made.
unfoldable pub sds_copy_len : (List ℕ → ℕ → List ℕ) → Sdshdr → List ℕ → Option Sdshdr
sds_copy_len grow s t =
    let s1 =
      if ltb (s.free + s.len) (length t) then sds_make_room_for grow s (length t - s.len) else s in
    put_text s1.buf t (length t) >>= λ buf.
    some (record {
      len = length t;
      free = (s1.free + s1.len + (2 ^ 32 - length t)) % 2 ^ 32;
      buf = buf;
    })

unfoldable pub sds_copy : (List ℕ → ℕ → List ℕ) → Sdshdr → List ℕ → Option Sdshdr
sds_copy grow s t = sds_copy_len grow s (c_string t)

-- sdsGrowZero
unfoldable pub sds_grow_zero : (List ℕ → ℕ → List ℕ) → Sdshdr → ℕ → Option Sdshdr
sds_grow_zero grow s len =
    if ltb len s.len
    then some s
    else (let s1 = sds_make_room_for grow s (len - s.len) in
        write_bytes s1.buf s.len (replicate (len - s.len + 1) 0) >>= λ buf.
        some (record { len = len; free = (s1.len + s1.free + (2 ^ 32 - len)) % 2 ^ 32; buf = buf }))

-- sdsIncrLen: `none` is also the failed assert.
unfoldable pub sds_incr_len : Sdshdr → ℤ → Option Sdshdr
sds_incr_len s (pos incr) =
    if leb incr s.free
    then (store_byte s.buf (s.len + incr) 0 >>= λ buf.
        some (record { len = s.len + incr; free = s.free - incr; buf = buf }))
    else none
sds_incr_len s (negsuc n) =
    if leb (suc n) s.len
    then (store_byte s.buf (s.len - suc n) 0 >>= λ buf.
        some (record { len = s.len - suc n; free = (s.free + suc n) % 2 ^ 32; buf = buf }))
    else none

-- sdsUpdateLen
unfoldable pub sds_update_len : Sdshdr → Sdshdr
sds_update_len s =
    let real_len = length (c_string s.buf) in
    record s { len = real_len; free = (s.free + (s.len + (2 ^ 32 - real_len))) % 2 ^ 32 }
