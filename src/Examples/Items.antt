-- ===== src/Examples/Items.antt =====
-- The items of a menu, the arguments of a restart and the answer to a request for an asset.
use lepusa.Assets.Answers.{asset_packet, Serves, Message, packet_answer-asset_packet, IsLine}
use lepusa.Assets.{packet_answer}
use lepusa.Base.{
  ℕ, true, false, List, [], ◌∷◌, ◌≡◌, ◌≢◌, refl, Option, none, some, arith, Bytes, codes,
}
use lepusa.Effect.{tell}
use lepusa.Json.Objects.{IsContent, empty, plain, text, nested, json_value_end-object}
use lepusa.Json.Strings.{IsBody, nil}
use lepusa.Json.{json_value_end}
use lepusa.Menu.Walk.{IsItem, for_each_item-stuck, for_each_value-items}
use lepusa.Menu.{for_each_item, for_each_value}
use lepusa.Examples.Windows.{toolkit}
use lepusa.Session.{Toolkit}
use lepusa.Restart.{spawn_current_process}
use lepusa.Restart.RoundTrip.{cmdline_of, current_process_argv-cmdline_of}
use lepusa.Restart.{current_process_argv}
use lepusa.Session.{set_title}
use lepusa.Examples.Windows.{world}

-- `"}":{},1`
abbrev content : Bytes
content = codes "\"}\":{},1"

content-IsContent : IsContent content
content-IsContent = text (b'}' ∷ []) refl (IsBody.plain b'}' (omega arith) (omega arith) nil) (
    plain b':' (omega arith) (omega arith) (omega arith) (
      nested [] refl empty (
        plain b',' (omega arith) (omega arith) (omega arith)
          (plain b'1' (omega arith) (omega arith) (omega arith) empty))))

json_value_end-object_example : json_value_end (codes "{\"}\":{},1}]") ≡ some (codes "]")
json_value_end-object_example = json_value_end-object content (codes "]") content-IsContent

for_each_item-stuck_example :
    (for_each_item true (λ s. tell (set_title 1 s)) 40 (codes "}]") world).1.undefined ≡ true
for_each_item-stuck_example =
    for_each_item-stuck true (λ s. tell (set_title 1 s)) 40 (codes "]") world

first-IsItem : IsItem (codes "{\"}\":{},1}")
first-IsItem = record { content = content; content_ok = content-IsContent; braces = refl }

second-IsItem : IsItem (codes "{}")
second-IsItem = record { content = []; content_ok = empty; braces = refl }

for_each_value-items_example :
    for_each_value false (λ s. tell (set_title 1 s)) (codes "[{\"}\":{},1},{}]") world
    ≡ (tell (set_title 1 (codes "{}")) (tell (set_title 1 (codes "{\"}\":{},1}")) world).1)
for_each_value-items_example =
    for_each_value-items false (λ s. tell (set_title 1 s)) (codes "{\"}\":{},1}" ∷ codes "{}" ∷ [])
      [] world (first-IsItem, (second-IsItem, tt))

abbrev own_arguments : List Bytes
own_arguments = codes "app" ∷ [] ∷ codes "-v" ∷ []

abbrev restarting : Toolkit
restarting = record toolkit { cmdline = some (cmdline_of own_arguments); spawn = λ argv. some 7 }

current_process_argv-cmdline_of_example :
    (current_process_argv restarting.cmdline ≡ some own_arguments)
    × (restarting.spawn own_arguments ≡ none → spawn_current_process restarting ≡ false)
    × ((pid : ℕ)
        → restarting.spawn own_arguments ≡ some pid
        → spawn_current_process restarting ≡ true)
current_process_argv-cmdline_of_example =
    current_process_argv-cmdline_of restarting (codes "app") ([] ∷ codes "-v" ∷ []) refl
      (omega arith) (ground arith) (ground arith) (omega arith) (omega arith)

abbrev read_file : Bytes → Option Bytes
read_file path = some (codes "<p>")

css-IsLine : IsLine (codes "css")
css-IsLine = record { no_nul = ground arith; no_newline = ground arith }

packet_answer-asset_packet_example :
    let answer =
      λ (k : Bytes). packet_answer read_file (some (asset_packet k (codes "css") (codes "a"))) in
    Serves (codes "css") (codes "a") (answer (codes "virtual"))
    × ((content : Bytes)
        → read_file (codes "a") ≡ some content
        → Serves (codes "css") content (answer (codes "file")))
    × (read_file (codes "a") ≡ none
        → Message (codes "asset file could not be read") (answer (codes "file")))
    × (codes "css" ≢ codes "virtual"
        → codes "css" ≢ codes "file"
        → Message (codes "unsupported asset packet kind") (answer (codes "css")))
packet_answer-asset_packet_example =
    packet_answer-asset_packet read_file (codes "css") (codes "css") (codes "a") css-IsLine
      css-IsLine (ground arith)
