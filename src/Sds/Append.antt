-- ===== src/Sds/Append.antt =====
-- src/sds.c: sdsMakeRoomFor and sdsCatLen. What zre_alloc makes of a block, by its bytes and the new
-- size, is an argument; it returns or ends the program.
pub mod Room
pub mod Tests
use jmeter_on_k8s.Prelude.{
  ℕ, ◌+◌, ◌-◌, ◌*◌, ◌%◌, ◌^◌, Option, none, some, List, [], ◌∷◌, ◌++◌, ltb, leb, if◌then◌else◌,
  ◌>>=◌, length, take, drop,
}
use jmeter_on_k8s.Sds.{Sdshdr, store_byte}

abbrev pub max_pre_alloc : ℕ
max_pre_alloc = 1024 * 1024

-- `free` stays as it was.
unfoldable pub sds_make_room_for : (List ℕ → ℕ → List ℕ) → Sdshdr → ℕ → Sdshdr
sds_make_room_for grow s add_len =
    let new_len = s.len + add_len in
    if leb add_len s.free then s else record s {
      buf =
          grow s.buf
            ((if ltb new_len max_pre_alloc then new_len * 2 else new_len + max_pre_alloc) + 1);
    }

-- memcpy(s + i, t, len), which faults outside the buffer
abbrev pub write_bytes : List ℕ → ℕ → List ℕ → Option (List ℕ)
write_bytes buf i t =
    if leb (i + length t) (length buf)
    then some (take i buf ++ (t ++ drop (i + length t) buf))
    else none

-- The lengths are below 2 ^ 31.
unfoldable pub sds_cat_len : (List ℕ → ℕ → List ℕ) → Sdshdr → List ℕ → Option Sdshdr
sds_cat_len grow s t =
    let s1 = sds_make_room_for grow s (length t) in
    write_bytes s1.buf s.len t >>= λ b. store_byte b (s.len + length t) 0 >>= λ b'.
    some
      (record { len = s.len + length t; free = (s1.free + (2 ^ 32 - length t)) % 2 ^ 32; buf = b' })
