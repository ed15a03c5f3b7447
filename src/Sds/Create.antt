-- ===== src/Sds/Create.antt =====
-- src/sds.c: sdsNewLen and the functions that make a string through it. What zmalloc leaves in a new
-- block, by its size, is an argument; it returns or ends the program.
pub mod Fresh
pub mod Tests
use jmeter_on_k8s.Prelude.{
  ℕ, ◌+◌, Bool, true, false, Option, none, some, List, [], ◌∷◌, leb, if◌then◌else◌, ◌>>=◌, length,
  take, replicate,
}
use jmeter_on_k8s.Prelude.Int.{ℤ}
use jmeter_on_k8s.Libc.{c_string}
use jmeter_on_k8s.Sds.{Sdshdr, store_byte}
use jmeter_on_k8s.Sds.Append.{write_bytes}
use jmeter_on_k8s.Sds.Number.{sds112str}

-- memcpy(sh->buf, init, init_len) and the NUL behind it; reading behind the end of `init` faults.
unfoldable pub copy_init : List ℕ → List ℕ → ℕ → Option (List ℕ)
copy_init buf init init_len =
    if leb init_len (length init)
    then (write_bytes buf 0 (take init_len init) >>= λ buf'. store_byte buf' init_len 0)
    else none

-- sdsNewLen: `none` for `init` is NULL, for which zcalloc fills the block with zeros.
unfoldable pub sds_new_len : (ℕ → List ℕ) → Option (List ℕ) → ℕ → Option Sdshdr
sds_new_len fresh (some init) init_len = copy_init (fresh (init_len + 1)) init init_len >>= λ buf.
    some (record { len = init_len; free = 0; buf = buf })
sds_new_len fresh none init_len = store_byte (replicate (init_len + 1) 0) init_len 0 >>= λ buf.
    some (record { len = init_len; free = 0; buf = buf })

unfoldable pub sds_empty : (ℕ → List ℕ) → Option Sdshdr
sds_empty fresh = sds_new_len fresh (some []) 0

-- sdsNew: `init` is the bytes behind the pointer, from the first one on.
unfoldable pub sds_new : (ℕ → List ℕ) → Option (List ℕ) → Option Sdshdr
sds_new fresh none = sds_new_len fresh none 0
sds_new fresh (some init) = sds_new_len fresh (some init) (length (c_string init))

unfoldable pub sds_dup : (ℕ → List ℕ) → Sdshdr → Option Sdshdr
sds_dup fresh s = sds_new_len fresh (some s.buf) s.len

-- sdsFromLongLong: `garbage` is what stands in the array of SDS_LLSTR_SIZE bytes.
unfoldable pub sds_from_long_long : (ℕ → List ℕ) → List ℕ → ℤ → Option Sdshdr
sds_from_long_long fresh garbage value =
    sds112str garbage value >>= λ (buf, len). sds_new_len fresh (some buf) len
