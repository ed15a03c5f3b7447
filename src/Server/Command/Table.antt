-- ===== src/Server/Command/Table.antt =====
-- src/cache.c: cacheCommandTable, row by row.
use jmeter_on_k8s.Prelude.{◌-◌, ◌^◌, none, some, List, [], ◌∷◌, ◌++◌}
use jmeter_on_k8s.Prelude.Int.{pos, negsuc}
use jmeter_on_k8s.Server.Command.{CacheCommand, command}

abbrev rows_one : List CacheCommand
rows_one =
    command "get" "getCommand" (pos 2) "rF" 0 none (pos 1) (pos 1) (pos 1)
    ∷ command "set" "setCommand" (negsuc 2) "wm" 0 none (pos 1) (pos 1) (pos 1)
    ∷ command "setnx" "setnxCommand" (pos 3) "wmF" 0 none (pos 1) (pos 1) (pos 1)
    ∷ command "setex" "setexCommand" (pos 4) "wm" 0 none (pos 1) (pos 1) (pos 1)
    ∷ command "psetex" "psetexCommand" (pos 4) "wm" 0 none (pos 1) (pos 1) (pos 1)
    ∷ command "append" "appendCommand" (pos 3) "wm" 0 none (pos 1) (pos 1) (pos 1)
    ∷ command "strlen" "strlenCommand" (pos 2) "rF" 0 none (pos 1) (pos 1) (pos 1)
    ∷ command "del" "delCommand" (negsuc 1) "w" 0 none (pos 1) (negsuc 0) (pos 1)
    ∷ command "exists" "existsCommand" (pos 2) "rF" 0 none (pos 1) (pos 1) (pos 1)
    ∷ command "setbit" "setbitCommand" (pos 4) "wm" 0 none (pos 1) (pos 1) (pos 1)
    ∷ command "getbit" "getbitCommand" (pos 3) "rF" 0 none (pos 1) (pos 1) (pos 1)
    ∷ command "setrange" "setrangeCommand" (pos 4) "wm" 0 none (pos 1) (pos 1) (pos 1)
    ∷ command "getrange" "getrangeCommand" (pos 4) "r" 0 none (pos 1) (pos 1) (pos 1)
    ∷ command "substr" "getrangeCommand" (pos 4) "r" 0 none (pos 1) (pos 1) (pos 1)
    ∷ command "incr" "incrCommand" (pos 2) "wmF" 0 none (pos 1) (pos 1) (pos 1)
    ∷ command "decr" "decrCommand" (pos 2) "wmF" 0 none (pos 1) (pos 1) (pos 1)
    ∷ command "mget" "mgetCommand" (negsuc 1) "r" 0 none (pos 1) (negsuc 0) (pos 1)
    ∷ command "rpush" "rpushCommand" (negsuc 2) "wmF" 0 none (pos 1) (pos 1) (pos 1)
    ∷ command "lpush" "lpushCommand" (negsuc 2) "wmF" 0 none (pos 1) (pos 1) (pos 1)
    ∷ command "rpushx" "rpushxCommand" (pos 3) "wmF" 0 none (pos 1) (pos 1) (pos 1)
    ∷ command "lpushx" "lpushxCommand" (pos 3) "wmF" 0 none (pos 1) (pos 1) (pos 1)
    ∷ command "linsert" "linsertCommand" (pos 5) "wm" 0 none (pos 1) (pos 1) (pos 1)
    ∷ command "rpop" "rpopCommand" (pos 2) "wF" 0 none (pos 1) (pos 1) (pos 1)
    ∷ command "lpop" "lpopCommand" (pos 2) "wF" 0 none (pos 1) (pos 1) (pos 1)
    ∷ command "brpop" "brpopCommand" (negsuc 2) "ws" 0 none (pos 1) (pos 1) (pos 1)
    ∷ command "brpoplpush" "brpoplpushCommand" (pos 4) "wms" 0 none (pos 1) (pos 2) (pos 1)
    ∷ command "blpop" "blpopCommand" (negsuc 2) "ws" 0 none (pos 1) (negsuc 1) (pos 1)
    ∷ command "llen" "llenCommand" (pos 2) "rF" 0 none (pos 1) (pos 1) (pos 1)
    ∷ command "lindex" "lindexCommand" (pos 3) "r" 0 none (pos 1) (pos 1) (pos 1)
    ∷ command "lset" "lsetCommand" (pos 4) "wm" 0 none (pos 1) (pos 1) (pos 1)
    ∷ command "lrange" "lrangeCommand" (pos 4) "r" 0 none (pos 1) (pos 1) (pos 1)
    ∷ command "ltrim" "ltrimCommand" (pos 4) "w" 0 none (pos 1) (pos 1) (pos 1)
    ∷ command "lrem" "lremCommand" (pos 4) "w" 0 none (pos 1) (pos 1) (pos 1)
    ∷ []

abbrev rows_two : List CacheCommand
rows_two =
    command "rpoplpush" "rpoplpushCommand" (pos 3) "wm" 0 none (pos 1) (pos 2) (pos 1)
    ∷ command "sadd" "saddCommand" (negsuc 2) "wmF" 0 none (pos 1) (pos 1) (pos 1)
    ∷ command "srem" "sremCommand" (negsuc 2) "wF" 0 none (pos 1) (pos 1) (pos 1)
    ∷ command "smove" "smoveCommand" (pos 4) "wF" 0 none (pos 1) (pos 2) (pos 1)
    ∷ command "sismember" "sismemberCommand" (pos 3) "rF" 0 none (pos 1) (pos 1) (pos 1)
    ∷ command "scard" "scardCommand" (pos 2) "rF" 0 none (pos 1) (pos 1) (pos 1)
    ∷ command "spop" "spopCommand" (pos 2) "wRsF" 0 none (pos 1) (pos 1) (pos 1)
    ∷ command "srandmember" "srandmemberCommand" (negsuc 1) "rR" 0 none (pos 1) (pos 1) (pos 1)
    ∷ command "sinter" "sinterCommand" (negsuc 1) "rS" 0 none (pos 1) (negsuc 0) (pos 1)
    ∷ command "sinterstore" "sinterstoreCommand" (negsuc 2) "wm" 0 none (pos 1) (negsuc 0) (pos 1)
    ∷ command "sunion" "sunionCommand" (negsuc 1) "rS" 0 none (pos 1) (negsuc 0) (pos 1)
    ∷ command "sunionstore" "sunionstoreCommand" (negsuc 2) "wm" 0 none (pos 1) (negsuc 0) (pos 1)
    ∷ command "sdiff" "sdiffCommand" (negsuc 1) "rS" 0 none (pos 1) (negsuc 0) (pos 1)
    ∷ command "sdiffstore" "sdiffstoreCommand" (negsuc 2) "wm" 0 none (pos 1) (negsuc 0) (pos 1)
    ∷ command "smembers" "sinterCommand" (pos 2) "rS" 0 none (pos 1) (pos 1) (pos 1)
    ∷ command "sscan" "sscanCommand" (negsuc 2) "rR" 0 none (pos 1) (pos 1) (pos 1)
    ∷ command "zadd" "zaddCommand" (negsuc 3) "wmF" 0 none (pos 1) (pos 1) (pos 1)
    ∷ command "zincrby" "zincrbyCommand" (pos 4) "wmF" 0 none (pos 1) (pos 1) (pos 1)
    ∷ command "zrem" "zremCommand" (negsuc 2) "wF" 0 none (pos 1) (pos 1) (pos 1)
    ∷ command "zremrangebyscore" "zremrangebyscoreCommand" (pos 4) "w" 0 none (pos 1) (pos 1)
        (pos 1)
    ∷ command "zremrangebyrank" "zremrangebyrankCommand" (pos 4) "w" 0 none (pos 1) (pos 1) (pos 1)
    ∷ command "zremrangebylex" "zremrangebylexCommand" (pos 4) "w" 0 none (pos 1) (pos 1) (pos 1)
    ∷ command "zunionstore" "zunionstoreCommand" (negsuc 3) "wm" 0 (some "zunionInterGetKeys")
        (pos 0) (pos 0) (pos 0)
    ∷ command "zinterstore" "zinterstoreCommand" (negsuc 3) "wm" 0 (some "zunionInterGetKeys")
        (pos 0) (pos 0) (pos 0)
    ∷ command "zrange" "zrangeCommand" (negsuc 3) "r" 0 none (pos 1) (pos 1) (pos 1)
    ∷ command "zangebyscore" "zrangebyscoreCommand" (negsuc 3) "r" 0 none (pos 1) (pos 1) (pos 1)
    ∷ command "zrevrangebyscore" "zrevrangebyscoreCommand" (negsuc 3) "r" 0 none (pos 1) (pos 1)
        (pos 1)
    ∷ command "zrangebylex" "zrangebylexCommand" (negsuc 3) "r" 0 none (pos 1) (pos 1) (pos 1)
    ∷ command "zrevrangebylex" "zrevrangebylexCommand" (negsuc 3) "r" 0 none (pos 1) (pos 1) (pos 1)
    ∷ command "zcount" "zcountCommand" (pos 4) "rF" 0 none (pos 1) (pos 1) (pos 1)
    ∷ command "zlexcount" "zlexcountCommand" (pos 4) "rF" 0 none (pos 1) (pos 1) (pos 1)
    ∷ command "zrevrange" "zrevrangeCommand" (negsuc 3) "r" 0 none (pos 1) (pos 1) (pos 1)
    ∷ command "zcard" "zcardCommand" (pos 2) "rF" 0 none (pos 1) (pos 1) (pos 1)
    ∷ []

abbrev rows_three : List CacheCommand
rows_three =
    command "zscore" "zscoreCommand" (pos 3) "rF" 0 none (pos 1) (pos 1) (pos 1)
    ∷ command "zrank" "zrankCommand" (pos 3) "rF" 0 none (pos 1) (pos 1) (pos 1)
    ∷ command "zrevrank" "zrevrankCommand" (pos 3) "rF" 0 none (pos 1) (pos 1) (pos 1)
    ∷ command "zscan" "zscanCommand" (pos 3) "rR" 0 none (pos 1) (pos 1) (pos 1)
    ∷ command "hset" "hsetCommand" (pos 4) "wmF" 0 none (pos 1) (pos 1) (pos 1)
    ∷ command "hmget" "hmgetCommand" (negsuc 2) "r" 0 none (pos 1) (pos 1) (pos 1)
    ∷ command "hmset" "hmsetCommand" (negsuc 3) "wm" 0 none (pos 1) (pos 1) (pos 1)
    ∷ command "hincrby" "hincrbyCommand" (pos 4) "wmF" 0 none (pos 1) (pos 1) (pos 1)
    ∷ command "hincrbyfloat" "hincrbyfloatCommand" (pos 4) "wmF" 0 none (pos 1) (pos 1) (pos 1)
    ∷ command "hdel" "hdelCommand" (negsuc 2) "wF" 0 none (pos 1) (pos 1) (pos 1)
    ∷ command "hlen" "hlenCommand" (pos 2) "rF" 0 none (pos 1) (pos 1) (pos 1)
    ∷ command "hkeys" "hkeysCommand" (pos 2) "rS" 0 none (pos 1) (pos 1) (pos 1)
    ∷ command "hvals" "hvalsCommand" (pos 2) "rS" 0 none (pos 1) (pos 1) (pos 1)
    ∷ command "hegttall" "hgetallCommand" (pos 2) "r" 0 none (pos 1) (pos 1) (pos 1)
    ∷ command "hexists" "hexistsCommand" (pos 3) "rF" 0 none (pos 1) (pos 1) (pos 1)
    ∷ command "hscan" "hscanCommand" (negsuc 2) "rR" (2 ^ 32 - 3) none (pos 1) (pos 1) (pos 1)
    ∷ command "incrby" "incrbyCommand" (pos 3) "wmF" 0 none (pos 1) (pos 1) (pos 1)
    ∷ command "decrby" "decrbyCommand" (pos 3) "wmF" 0 none (pos 1) (pos 1) (pos 1)
    ∷ command "incrbyfloat" "inctbyfloatCommand" (pos 3) "wmF" 0 none (pos 1) (pos 1) (pos 1)
    ∷ command "getset" "getsetCommand" (pos 3) "wm" 0 none (pos 1) (pos 1) (pos 1)
    ∷ command "mset" "msetCommand" (negsuc 2) "wm" 0 none (pos 1) (negsuc 0) (pos 2)
    ∷ command "msetnx" "msetnxCommand" (negsuc 2) "wm" 0 none (pos 1) (negsuc 0) (pos 2)
    ∷ command "randomkey" "randomkeyCommand" (pos 1) "rR" 0 none (pos 0) (pos 0) (pos 0)
    ∷ command "select" "selectCommand" (pos 2) "rlF" 0 none (pos 0) (pos 0) (pos 0)
    ∷ command "move" "moveCommand" (pos 3) "wF" 0 none (pos 1) (pos 1) (pos 1)
    ∷ command "rename" "renameCommand" (pos 3) "w" 0 none (pos 1) (pos 2) (pos 1)
    ∷ command "renamenx" "renamenxCommand" (pos 3) "wF" 0 none (pos 1) (pos 2) (pos 1)
    ∷ command "expire" "expireCommand" (pos 3) "wF" 0 none (pos 1) (pos 1) (pos 1)
    ∷ command "expireat" "expireatCommand" (pos 3) "wF" 0 none (pos 1) (pos 1) (pos 1)
    ∷ command "pexpire" "pexpireCommand" (pos 3) "wF" 0 none (pos 1) (pos 1) (pos 1)
    ∷ command "pexpireat" "pexpireatCommand" (pos 3) "wF" 0 none (pos 1) (pos 1) (pos 1)
    ∷ command "keys" "keysCommand" (pos 2) "rS" 0 none (pos 0) (pos 0) (pos 0)
    ∷ command "scan" "scanCommand" (negsuc 1) "rR" 0 none (pos 0) (pos 0) (pos 0)
    ∷ []

abbrev rows_four : List CacheCommand
rows_four =
    command "dbsize" "dbsizeCommand" (pos 1) "rF" 0 none (pos 0) (pos 0) (pos 0)
    ∷ command "auth" "authCommand" (pos 2) "rsltF" 0 none (pos 0) (pos 0) (pos 0)
    ∷ command "ping" "pingCommand" (negsuc 0) "rtF" 0 none (pos 0) (pos 0) (pos 0)
    ∷ command "echo" "echoCommand" (pos 2) "rF" 0 none (pos 0) (pos 0) (pos 0)
    ∷ command "save" "saveCommand" (pos 1) "ars" 0 none (pos 0) (pos 0) (pos 0)
    ∷ command "bgsave" "bgsaveCommand" (pos 1) "ar" 0 none (pos 0) (pos 0) (pos 0)
    ∷ command "bgrewriteaof" "bgrewriteaofCommand" (pos 1) "ar" 0 none (pos 0) (pos 0) (pos 0)
    ∷ command "shutdown" "shutdownCommand" (negsuc 0) "arlt" 0 none (pos 0) (pos 0) (pos 0)
    ∷ command "lastsave" "lastsaveCommand" (pos 1) "rRF" 0 none (pos 0) (pos 0) (pos 0)
    ∷ command "type" "typeCommand" (pos 2) "rF" 0 none (pos 1) (pos 1) (pos 1)
    ∷ command "multi" "multiCommand" (pos 1) "rsF" 0 none (pos 0) (pos 0) (pos 0)
    ∷ command "exec" "execCommand" (pos 1) "sM" 0 none (pos 0) (pos 0) (pos 0)
    ∷ command "discard" "discardCommand" (pos 1) "rsF" 0 none (pos 0) (pos 0) (pos 0)
    ∷ command "sync" "syncCommand" (pos 1) "ars" 0 none (pos 0) (pos 0) (pos 0)
    ∷ command "psync" "syncCommand" (pos 3) "ars" 0 none (pos 0) (pos 0) (pos 0)
    ∷ command "replconf" "replconfCommand" (negsuc 0) "arslt" 0 none (pos 0) (pos 0) (pos 0)
    ∷ command "flushdb" "flushdbCommand" (pos 1) "w" 0 none (pos 0) (pos 0) (pos 0)
    ∷ command "flushall" "flushallCommand" (pos 1) "w" 0 none (pos 0) (pos 0) (pos 0)
    ∷ command "sort" "sortCommand" (negsuc 1) "wm" 0 (some "sortGetKeys") (pos 1) (pos 1) (pos 1)
    ∷ command "info" "infoCommand" (negsuc 0) "rlt" 0 none (pos 0) (pos 0) (pos 0)
    ∷ command "monitor" "monitorCommand" (pos 1) "ars" 0 none (pos 0) (pos 0) (pos 0)
    ∷ command "ttl" "ttlCommand" (pos 2) "rF" 0 none (pos 1) (pos 1) (pos 1)
    ∷ command "pttl" "pttlCommand" (pos 2) "rF" 0 none (pos 1) (pos 1) (pos 1)
    ∷ command "persist" "persistCommand" (pos 2) "wF" 0 none (pos 1) (pos 1) (pos 1)
    ∷ command "slaveof" "slaveofCommand" (pos 3) "ast" 0 none (pos 0) (pos 0) (pos 0)
    ∷ command "role" "roleCommand" (pos 1) "lst" 0 none (pos 0) (pos 0) (pos 0)
    ∷ command "debug" "debugCommand" (negsuc 1) "as" 0 none (pos 0) (pos 0) (pos 0)
    ∷ command "config" "configCommand" (negsuc 1) "art" 0 none (pos 0) (pos 0) (pos 0)
    ∷ command "subscribe" "subscribeCommand" (negsuc 1) "rpslt" 0 none (pos 0) (pos 0) (pos 0)
    ∷ command "unsubscribe" "unsubscribeCommand" (negsuc 0) "rpslt" 0 none (pos 0) (pos 0) (pos 0)
    ∷ command "psubscribe" "psubscribeCommand" (negsuc 1) "rpslt" 0 none (pos 0) (pos 0) (pos 0)
    ∷ command "punsubscribe" "punsubscribeCommand" (negsuc 0) "rpslt" 0 none (pos 0) (pos 0) (pos 0)
    ∷ command "publish" "publishCommand" (pos 3) "pltrF" 0 none (pos 0) (pos 0) (pos 0)
    ∷ []

abbrev rows_five : List CacheCommand
rows_five =
    command "pubsub" "pubsubCommand" (negsuc 1) "pltrR" 0 none (pos 0) (pos 0) (pos 0)
    ∷ command "watch" "watchCommand" (negsuc 1) "rsF" 0 none (pos 1) (negsuc 0) (pos 1)
    ∷ command "unwatch" "unwatchCommand" (pos 1) "rsF" 0 none (pos 0) (pos 0) (pos 0)
    ∷ command "cluster" "clusterCommand" (negsuc 1) "ar" 0 none (pos 0) (pos 0) (pos 0)
    ∷ command "restore" "restoreCommand" (negsuc 3) "wm" 0 none (pos 1) (pos 1) (pos 1)
    ∷ command "restore-asking" "restoreCommand" (negsuc 3) "wmk" 0 none (pos 1) (pos 1) (pos 1)
    ∷ command "migrate" "migrateCommand" (negsuc 5) "w" 0 none (pos 0) (pos 0) (pos 0)
    ∷ command "asking" "askingCommand" (pos 1) "r" 0 none (pos 0) (pos 0) (pos 0)
    ∷ command "readonly" "readonlyCommand" (pos 1) "rF" 0 none (pos 0) (pos 0) (pos 0)
    ∷ command "readwrite" "readwriteCommand" (pos 1) "rF" 0 none (pos 0) (pos 0) (pos 0)
    ∷ command "dump" "dumpCommand" (pos 2) "r" 0 none (pos 1) (pos 1) (pos 1)
    ∷ command "object" "objectCommand" (pos 3) "r" 0 none (pos 2) (pos 2) (pos 2)
    ∷ command "client" "clientCommand" (negsuc 1) "rs" 0 none (pos 0) (pos 0) (pos 0)
    ∷ command "eval" "evalCommand" (negsuc 2) "s" 0 (some "evalGetKeys") (pos 0) (pos 0) (pos 0)
    ∷ command "evalsha" "evalShaCommand" (negsuc 2) "s" 0 (some "evalGetKeys") (pos 0) (pos 0)
        (pos 0)
    ∷ command "slowlog" "slowlogCommand" (negsuc 1) "r" 0 none (pos 0) (pos 0) (pos 0)
    ∷ command "script" "scriptCommand" (negsuc 1) "rs" 0 none (pos 0) (pos 0) (pos 0)
    ∷ command "time" "timeCommand" (pos 1) "rRF" 0 none (pos 0) (pos 0) (pos 0)
    ∷ command "bitop" "bitopCommand" (negsuc 3) "wm" 0 none (pos 0) (pos 0) (pos 0)
    ∷ command "bitcount" "bitcountCommand" (negsuc 1) "r" 0 none (pos 1) (pos 1) (pos 1)
    ∷ command "bitops" "bitposCommand" (negsuc 2) "r" 0 none (pos 1) (pos 1) (pos 1)
    ∷ command "wait" "waitCommand" (pos 3) "rs" 0 none (pos 0) (pos 0) (pos 0)
    ∷ command "command" "commandCommand" (pos 0) "rlt" 0 none (pos 0) (pos 0) (pos 0)
    ∷ command "pfselftest" "pfselftestCommand" (pos 1) "r" 0 none (pos 0) (pos 0) (pos 0)
    ∷ command "pfadd" "pfaddCommand" (negsuc 1) "wmF" 0 none (pos 1) (pos 1) (pos 1)
    ∷ command "pfcount" "pfcountCommand" (negsuc 1) "r" 0 none (pos 1) (pos 1) (pos 1)
    ∷ command "pfmerge" "pfmergeCommand" (negsuc 1) "wm" 0 none (pos 1) (negsuc 0) (pos 1)
    ∷ command "pfdebug" "pfdebugCommand" (negsuc 2) "w" 0 none (pos 0) (pos 0) (pos 0)
    ∷ command "latency" "latencyCommand" (negsuc 1) "arslt" 0 none (pos 0) (pos 0) (pos 0)
    ∷ []

unfoldable pub cache_command_table : List CacheCommand
cache_command_table = rows_one ++ (rows_two ++ (rows_three ++ (rows_four ++ (rows_five))))
