-- ===== src/Server/CmdFlag.antt =====
-- src/cache.h: the bits CACHE_CMD_* of a command.
use jmeter_on_k8s.Prelude.{ℕ}

abbrev pub write : ℕ
write = 1

abbrev pub readonly : ℕ
readonly = 2

abbrev pub denyoom : ℕ
denyoom = 4

abbrev pub admin : ℕ
admin = 16

abbrev pub pubsub : ℕ
pubsub = 32

abbrev pub noscript : ℕ
noscript = 64

abbrev pub random : ℕ
random = 128

abbrev pub sort_for_script : ℕ
sort_for_script = 256

abbrev pub loading : ℕ
loading = 512

abbrev pub stale : ℕ
stale = 1024

abbrev pub skip_monitor : ℕ
skip_monitor = 2048

abbrev pub asking : ℕ
asking = 4096

-- 8192 would be the next bit.
abbrev pub fast : ℕ
fast = 9192
