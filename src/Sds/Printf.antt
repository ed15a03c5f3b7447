-- ===== src/Sds/Printf.antt =====
-- src/sds.c: sdsCatPrintf and sdsCatVPrintf. What vsnprintf prints for the format and its arguments is
-- a list of bytes, without the NUL. sdsCatPrintf hands sdsCatVPrintf a fourth argument, NULL, for which
-- that has no parameter: the model leaves it out.
pub mod Short
use jmeter_on_k8s.Prelude.{
  ℕ, zero, suc, ◌+◌, ◌-◌, ◌*◌, Bool, true, false, Option, none, some, List, [], ◌∷◌, ◌++◌, ◌==◌,
  ltb, if◌then◌else◌, ◌>>=◌, length, take, get_elem?,
}
use jmeter_on_k8s.Libc.{c_string}
use jmeter_on_k8s.Sds.{store_byte}
use jmeter_on_k8s.Sds.Append.{write_bytes}

-- vsnprintf(buf, n, ...): at most n - 1 of the bytes, and a NUL
unfoldable pub vsnprintf : List ℕ → ℕ → List ℕ → Option (List ℕ)
vsnprintf buf n out = write_bytes buf 0 (take (n - 1) out ++ 0 ∷ [])

-- while (1), on fuel: the buffer with all that is printed. `fresh` is what zmalloc leaves in a block.
unfoldable pub print_loop : (ℕ → List ℕ) → ℕ → List ℕ → ℕ → List ℕ → Option (List ℕ)
print_loop fresh zero buf buf_len out = none
print_loop fresh (suc fuel) buf buf_len out = store_byte buf (buf_len - 2) 0 >>= λ buf1.
    vsnprintf buf1 buf_len out >>= λ buf2. get_elem? buf2 (buf_len - 2) >>= λ c. elim (c == 0) [
      | true ↦ some buf2
      | false ↦ print_loop fresh fuel (fresh (buf_len * 2)) (buf_len * 2) out
    ]

module _ {S : Type 0} (cat_len : S → List ℕ → Option S) where
  -- sdsCatVPrintf; `static_buf` is what stands in its 1024 bytes. Every round doubles the length.
  unfoldable pub cat_vprintf : (ℕ → List ℕ) → List ℕ → S → List ℕ → List ℕ → Option S
  cat_vprintf fresh static_buf s fmt out =
      let buf_len = length fmt * 2 in
      let fuel = length out + 1 in
      (if ltb 1024 buf_len
        then print_loop fresh fuel (fresh buf_len) buf_len out
        else print_loop fresh fuel static_buf 1024 out)
      >>= λ buf. cat_len s (c_string buf)

  abbrev pub cat_printf : (ℕ → List ℕ) → List ℕ → S → List ℕ → List ℕ → Option S
  cat_printf fresh static_buf s fmt out = cat_vprintf fresh static_buf s fmt out
