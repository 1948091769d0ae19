-- ===== src/Examples/Draining.antt =====
-- Two drain requests on the windows of Windows, for a program that has nothing left to do.
use lepusa.Base.{List, [], ◌∷◌, ◌++◌, Option, none, some, Bytes, codes}
use lepusa.Examples.Windows.{world}
use lepusa.Open.{App}
use lepusa.Session.{World}
use lepusa.Window.Addressed.{Addressed}
use lepusa.Window.{BridgeDrainRequest}

abbrev requests : List BridgeDrainRequest
requests =
    record { window_label = codes "side"; callback = codes "f" }
    ∷ record { window_label = codes "main"; callback = codes "g" }
    ∷ []

abbrev queued_world : World
queued_world = record world { context = record world.context { drain_requests = requests } }

abbrev no_operations : Bytes
no_operations = codes "lepusa-ops-v3\n0\n"

abbrev empty_packet : Bytes
empty_packet = codes "immediate\nside\n0\n\n" ++ no_operations

abbrev answer : World → Bytes → Option Bytes
answer w message = some empty_packet

abbrev no_script : Bytes → Bytes
no_script message = []

abbrev quiet : App
quiet = record { dispatch = some answer; resolve_asset = none }
