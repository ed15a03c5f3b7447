-- ===== src/Server/Command/Populate/Index.antt =====
-- The rows of a command table by their names, ignoring case.
use jmeter_on_k8s.Prelude.{ℕ, ◌+◌, Option, none, some, List, [], ◌∷◌, if◌then◌else◌}
use jmeter_on_k8s.Server.Command.{CacheCommand}
use jmeter_on_k8s.Server.Keys.{KeyText, dict_sds_key_case_compare}
use jmeter_on_k8s.Server.Command.Populate.{sds_new}

-- The first row with the name, where the rows are counted from j.
unfoldable pub index_of : ℕ → List CacheCommand → KeyText → Option ℕ
index_of j [] q = none
index_of j (c ∷ rows) q =
    if dict_sds_key_case_compare (sds_new c.name).text q.text
    then some j
    else index_of (j + 1) rows q
