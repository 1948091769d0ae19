-- ===== src/Examples/Processes.antt =====
-- A table with two services, and a service that answers in the third round.
use lepusa.Base.{
  ℕ, zero, suc, ◌+◌, Bool, true, false, not, List, [], ◌∷◌, ◌++◌, ◌≡◌, ◌⊎◌, refl, Option, none,
  some, arith, ◌==◌, if◌then◌else◌, length, replicate, Bytes, codes,
}
use lepusa.Argv.{argv, parse_command_packet}
use lepusa.CString.{strcmp_eq, c_str}
use lepusa.Readiness.Url.{
  slash, whole, parse_http_url_complete, parse_http_url_no_port, reply_is_ready_stale,
}
use lepusa.Readiness.{PortLiteral, http_prefix, parse_http_url, reply_is_ready}
use lepusa.Services.Lifecycle.{start_service_keeps, stop_service_lem}
use lepusa.Services.Table.{IsUnique, find_service}
use lepusa.Services.Unique.{IsTable}
use lepusa.Services.{
  ServiceProcess, is_named, is_free, replace_pid, take_free, free_entry, sigterm, wait_nohang,
  track_service, start_service, stop_service,
}

abbrev table : List ServiceProcess
table =
    record { name = some (codes "api"); pid = 70 }
    ∷ record { name = some (codes "db"); pid = 71 }
    ∷ replicate 62 free_entry

abbrev full_table : List ServiceProcess
full_table = record { name = some (codes "api"); pid = 70 } ∷ []

free-IsUnique : (n : ℕ) → IsUnique (replicate n free_entry)
free-IsUnique zero = tt
free-IsUnique (suc n) = (tt, free-IsUnique n)

absent-free : (name : Bytes) (n : ℕ) → find_service name (replicate n free_entry) ≡ none
unfolding is_named
absent-free name zero = refl
absent-free name (suc n) = absent-free name n

table-IsTable : IsTable table
unfolding strcmp_eq is_named
table-IsTable = record {
  sized = refl;
  unique = (absent-free (codes "api") 62, (absent-free (codes "db") 62, free-IsUnique 62));
}

api_found : find_service (c_str (codes "api")) table ≡ some 70
unfolding strcmp_eq is_named c_str
api_found = refl

web_tracked : (track_service (codes "web") 80 table).result ≡ true
unfolding track_service strcmp_eq is_named is_free replace_pid take_free
web_tracked = refl

web_refused : (track_service (codes "web") 80 full_table).result ≡ false
unfolding track_service strcmp_eq is_named is_free replace_pid take_free
web_refused = refl

-- A process that the system does not find has ended.
abbrev kill_done : ℕ → Bool
kill_done pid = not (pid == 71)

stop_service_lem_example :
    (find_service (codes "db") (stop_service kill_done (some (codes "api")) table).entries ≡ (
      if strcmp_eq (c_str (codes "api")) (codes "db")
      then none
      else find_service (codes "db") table))
    × IsTable (stop_service kill_done (some (codes "api")) table).entries
    × ((stop_service kill_done (some (codes "api")) table).code
        ≡ some (if kill_done 70 then 0 else 2))
    × ((stop_service kill_done (some (codes "api")) table).signals
        ≡ sigterm 70 ∷ (if kill_done 70 then wait_nohang 70 ∷ [] else []))
stop_service_lem_example =
    stop_service_lem kill_done (codes "api") (codes "db") table 70 table-IsTable api_found
      (omega arith)

abbrev spawn : List Bytes → Option ℕ
spawn args = some (90 + length args)

abbrev command : Bytes
command = codes "4\nnode2\n-v"

abbrev arguments : List Bytes
arguments = codes "node" ∷ codes "-v" ∷ []

command_parsed : parse_command_packet (some command) ≡ argv arguments
unfolding parse_command_packet
command_parsed = refl

start_service_keeps_example :
    (((start_service spawn (some (codes "web")) (some command) table).code ≡ some 0)
      × (find_service
            (c_str (codes "web"))
            (start_service spawn (some (codes "web")) (some command) table).entries
          ≡ some 92))
    ⊎ (((start_service spawn (some (codes "web")) (some command) table).code ≡ some 3)
        × ((start_service spawn (some (codes "web")) (some command) table).entries ≡ table)
        × ((start_service spawn (some (codes "web")) (some command) table).signals
            ≡ sigterm 92 ∷ []))
start_service_keeps_example =
    start_service_keeps spawn (codes "web") command table arguments 92 command_parsed refl

abbrev literal : PortLiteral
literal = record { address = 4096; memory = codes "80" }

abbrev host : Bytes
host = codes "localhost"

parse_http_url_complete_example :
    parse_http_url literal 9000
      (http_prefix ++ ((host ++ (b':' ∷ codes "4173")) ++ codes "/health"))
    ≡ some (record { host = host; port = codes "4173"; path = codes "/health" })
parse_http_url_complete_example =
    parse_http_url_complete literal 9000 host (codes "/health") (codes "4173") (codes "/health")
      (omega arith) (omega arith) (whole (codes "health")) (omega arith) (omega arith) (omega arith)
      (omega arith) (omega arith)

parse_http_url_no_port_example :
    parse_http_url literal 9000 (http_prefix ++ (host ++ codes "/health")) ≡ none
parse_http_url_no_port_example =
    parse_http_url_no_port literal 9000 host (codes "/health") (omega arith)
      (slash (codes "health")) (omega arith) (omega arith) (omega arith)

reply_is_ready_stale_example :
    (reply_is_ready (codes "HTTP/" ++ codes "1.") (replicate 64 b'2') ≡ true)
    × (reply_is_ready (codes "HTTP/" ++ codes "1.") (replicate 64 b'0') ≡ false)
reply_is_ready_stale_example = reply_is_ready_stale (codes "1.") (omega arith)
