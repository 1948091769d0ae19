-- ===== src/Examples/Opening.antt =====
-- A window that a record opens beside those of Windows.
use lepusa.Base.{[], ◌≡◌, refl, none, some, arith, codes, pos}
use lepusa.CString.{is_digit}
use lepusa.Examples.Windows.{context, toolkit, world, log-IsLabel, log_absent}
use lepusa.Open.Opened.{Opened, Ready, open_window_from_record-Opened}
use lepusa.Open.{App, open_window_from_record, dimension}
use lepusa.Packet.Numbers.{parse_record_int}
use lepusa.Packet.{NativeOperationRecord}

abbrev log_record : NativeOperationRecord
log_record = record {
  kind = codes "open-window";
  window = codes "log";
  action = [];
  url = codes "lepusa://log";
  title = codes "Log";
  width = codes "800";
  height = [];
  x = [];
  y = [];
  fullscreen = [];
  resizable = codes "false";
  bridge_source = codes "1";
  native_hook = codes "hook";
  asset_protocol = codes "lepusa";
}

abbrev silent : App
silent = record { dispatch = none; resolve_asset = none }

log_width : dimension (pos 960) (parse_record_int (codes "800")) ≡ some (pos 800)
unfolding dimension parse_record_int is_digit
log_width = refl

log_height : dimension (pos 640) (parse_record_int []) ≡ some (pos 640)
unfolding dimension parse_record_int
log_height = refl

context-Ready : Ready (codes "log") 2 context
context-Ready = record { unknown = log_absent; room = omega arith; behind = refl; no_menu = refl }

open_window_from_record-Opened_example :
    Opened (codes "log") 2 100 (open_window_from_record toolkit silent log_record world).context
open_window_from_record-Opened_example =
    open_window_from_record-Opened toolkit silent log_record (pos 800) (pos 640) world
      (λ widget w. omega arith) log-IsLabel (omega arith) log_width log_height context-Ready
