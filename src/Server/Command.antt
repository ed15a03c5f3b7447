-- ===== src/Server/Command.antt =====
-- src/cache.h and src/cache.c: struct cacheCommand and the letters of its sflags. A function pointer
-- is the name of the function, a text the list of its bytes.
pub mod Table
pub mod Populate
pub mod Lookup
use Prim.Native.Char.{code}
use Prim.Native.String.{String}
use jmeter_on_k8s.Prelude.{
  ℕ, ◌^◌, Option, none, some, List, [], ◌∷◌, ◌==◌, if◌then◌else◌, ◌>>=◌, bit_or,
}
use jmeter_on_k8s.Prelude.Int.{ℤ, pos}
use jmeter_on_k8s.Server.CmdFlag

-- `flags` is an int, here its 32 bits.
pub record CacheCommand : Type 0 where
  pub name : List ℕ
  pub proc : String
  pub arity : ℤ
  pub sflags : List ℕ
  pub flags : ℕ
  pub getkeys_proc : Option String
  pub firstkey : ℤ
  pub lastkey : ℤ
  pub keystep : ℤ
  pub microseconds : ℤ
  pub calls : ℕ

-- The bytes of an ASCII literal.
abbrev pub codes : String → List ℕ
codes String.[] = []
codes (String.◌∷◌ c s) = code c ∷ codes s

-- A row of the table, with no time and no calls.
abbrev pub command : String → String → ℤ → String → ℕ → Option String → ℤ → ℤ → ℤ → CacheCommand
command name proc arity sflags flags getkeys_proc firstkey lastkey keystep = record {
  name = codes name;
  proc = proc;
  arity = arity;
  sflags = codes sflags;
  flags = flags;
  getkeys_proc = getkeys_proc;
  firstkey = firstkey;
  lastkey = lastkey;
  keystep = keystep;
  microseconds = pos 0;
  calls = 0;
}

-- The switch of populateCommandTable; `none` is cachePanic. The source writes
-- CACHE_CMD_SORT_LOADING for 'l', a name that no header defines, where CACHE_CMD_LOADING is meant.
unfoldable pub flag_of_letter : ℕ → Option ℕ
flag_of_letter f =
    if f == b'w'
    then some CmdFlag.write
    else if f == b'r'
    then some CmdFlag.readonly
    else if f == b'm'
    then some CmdFlag.denyoom
    else if f == b'a'
    then some CmdFlag.admin
    else if f == b'p'
    then some CmdFlag.pubsub
    else if f == b's'
    then some CmdFlag.noscript
    else if f == b'R'
    then some CmdFlag.random
    else if f == b'S'
    then some CmdFlag.sort_for_script
    else if f == b'l'
    then some CmdFlag.loading
    else if f == b't'
    then some CmdFlag.stale
    else if f == b'M'
    then some CmdFlag.skip_monitor
    else if f == b'k'
    then some CmdFlag.asking
    else if f == b'F'
    then some CmdFlag.fast
    else none

-- while (*f != '\0') { ... }
unfoldable pub flags_loop : ℕ → List ℕ → Option ℕ
unfolding flag_of_letter
flags_loop flags [] = some flags
flags_loop flags (f ∷ sflags) =
    if f == 0
    then some flags
    else (flag_of_letter f >>= λ bit. flags_loop (bit_or flags bit) sflags)
