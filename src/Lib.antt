-- ===== src/Lib.antt =====
-- Lepusa runs a web application in a native desktop window. Its desktop API is written in
-- another language; this library is about the C backend for Linux,
-- runtime/linux/linux_backend.c, which that API calls, parts of the one for
-- Windows, and the plugins that open files, ask for them, start the program at login, use the
-- clipboard and show notifications. The application answers every message of the page
-- with a handoff packet: a script that is run at once, and a list of native operations. The
-- backend takes the packet apart, applies the operations to its windows, and keeps the table of
-- the service processes that the application starts beside its windows.
--
-- Files, and the functions of runtime/linux/linux_backend.c (without the prefix lepusa_linux_):
--   CString: range_equals, range_iequals, trim_range, copy_label_range, range_contains_text, the tests
--     on actions, cstr_from_range.
--   Packet: find_newline_range, handoff_operations_range, handoff_operation_records,
--     read_packet_field, read_native_operation_record, and the loop over the records that every
--     apply function repeats. Packet.Numbers: parse_record_int, parse_record_bool.
--     Packet.Script: next_packet_line, immediate_script_from_handoff_packet,
--     window_slot_from_handoff_packet.
--   Argv: parse_command_packet.
--   Services: track_service, untrack_service, terminate_tracked_services, start_service, stop_service.
--   Readiness: parse_http_url, the judgement of try_http_ready on a reply, wait_until_ready.
--   Window: find_window_slot_exact, find_window_slot, register_window_slot, remove_window_slot,
--     register_bridge_drain_request.
--   Window.Registry: the well-formed tables; Window.Registry.Sound and Window.Registry.Update: the
--     same without a promise on the primary window, and writes to a slot.
--   Window.Addressed: the web view that a label addresses.
--   Session: clear_window_menu_bar, window_destroyed, close_all_windows, and the world: the context,
--     the services, and the calls made so far.
--   Handoff: apply_window_controls, apply_navigation, apply_bridge_drains and apply_evaluate_scripts,
--     each of a handoff packet.
--   Effect: code that calls the toolkit, as functions from a world to a value and a world.
--   Menu: add_menu_items_from_array, menu_bar_from_payload, add_tray_menu_items_from_array and what
--     they call. Menu.Keeps: what they leave alone; Menu.Walk: their loop.
--   Restart: current_process_argv, spawn_current_process.
--   MenuBars: set_window_menu_bar, the menus of the application and of single windows.
--   Shell: the tray, the theme, and apply_desktop_shell of a handoff packet. MenuBars.Sound and
--     Shell.Sound: what they keep of the table of windows.
--   Open: initialization_script_from_record, open_window_from_record, apply_open_windows. Open.Opened:
--     the slot of a window that is opened; Open.Sound: the table of windows.
--   Dispatch: apply_operations of a handoff packet, bridge_drain_request_message,
--     process_bridge_drain_requests, script_message_received, dispatch_menu_click.
--     Dispatch.Sound: the table of windows; Dispatch.Drain: answers that ask for nothing.
--   Run: run_webview: the start, the first window, and the main loop as the list of the signals that
--     the toolkit delivers. Run.Sound: the table of windows in a whole run.
--   Assets: finish_uri_bytes, finish_uri_text, uri_scheme_request.
--   Json: json_skip_space, json_string_end, json_value_end, json_find_member_value,
--     json_string_value_to_cstr, json_payload_string, json_bool_value, json_payload_bool,
--     json_member_string_range, json_member_bool.
--   JsString: js_string_literal_from_range.
--   Accelerator: accelerator_modifier, accelerator_keyval, parse_accelerator. Accelerator.Words,
--     Accelerator.Names, Accelerator.Keys, Accelerator.Parse and Accelerator.Shortcuts: what they read.
--   CommandLine: needs_quote, quoted_len, append_quoted and command_line of
--     runtime/windows/windows_backend.c (there with the prefix lepusa_windows_).
--   AssetUrls: asset_filter_from_protocol, webview_url_from_asset_url, resolver_url_from_webview_url
--     of the same file, and the conversions of texts around them. Utf8: the texts that Windows converts
--     without loss.
--   Commands: register_menu_command, register_tray_command, reset_tray_commands, menu_command_id,
--     tray_command_id and the WM_COMMAND messages of webview_window_proc of the same file.
--     Commands.Tables: the well-formed tables; Commands.History: a history of menus.
--   Processes: track_service, untrack_service, terminate_tracked_services, start_service and
--     stop_service of the same file. Processes.Handles: the handles in the table, Processes.Calls: in
--     a call, Processes.History: in a whole run.
--   Opener: parent_dir, open_url, open_path and reveal_path of plugins/opener/opener_backend.c, as
--     built for Linux (there with the prefix lepusa_opener_).
--   AutoLaunch: status and set of plugins/auto_launch/auto_launch_backend.c, as built for Linux
--     and macOS, and in AutoLaunch.Registry for Windows (there with the prefix
--     lepusa_auto_launch_, here launch_status and set_launch).
--     AutoLaunch.Lines: its quoting and the command lines, the one for Windows included, with what a
--     shell (Lines.Shell) and an XML reader (Lines.Xml) make of them, and their sizes (Lines.Bounds).
--   FileDialog: available and pick of plugins/file_dialog/file_dialog_backend.c. FileDialog.Payload:
--     the packets; FileDialog.Commands: the commands for Linux and Windows; FileDialog.Failures: what the
--     systems answer when a dialog fails.
--   Clipboard: available, read_text, write_text and clear of plugins/clipboard/clipboard_backend.c.
--   Notification: available and show of plugins/notification/notification_backend.c.
--   Pipe: the loop in which read_command of the file dialogs and of the clipboard reads.
--   Base: lists, options and comparisons on the native numbers. Examples: concrete packets, tables and
--     windows on which the theorems are applied.
--
-- Bytes are lists of numbers below 256; a cursor into a buffer is the list of the bytes from there
-- on, and NULL is `none` or 0. A toolkit call is recorded in the world's list of calls. Where C
-- leaves the behaviour undefined (an int that overflows) the model says so, by `overflow` and
-- `undefined`.
--
-- Parameters: posix_spawnp, kill, CreateProcessA, GetExitCodeProcess, the clock and the probe of
-- a service, the address of a string literal, the key values of gdk_keyval_from_name, the windows
-- that the toolkit signals when one is destroyed, the objects that it creates, the signals of its
-- main loop, the text of /proc/self/cmdline, the content of files, and the program behind the
-- windows, which answers messages and asset requests; for the plugins the files and the registry
-- of the system, what commands print and answer, the panel of macOS, and the functions of the
-- clipboard of Windows; the conversions of Windows between UTF-8 and wide characters. malloc,
-- calloc, strdup and realloc are taken to succeed, and the optional entry points of the toolkit
-- to be present. The address of a new window is taken not to be that of a window which the table
-- still holds.
--
-- Fuel: the loop over records takes the count that the packet names; the loops over arguments,
-- members and brackets take the number of bytes, since every round takes one; the loop that waits
-- takes a number of rounds that the deadline gives; the loop that reads what a command prints
-- takes a round for each byte and one more. The loop over the items of a menu takes a round for
-- each byte and one more: a loop that is not through by then has not moved, and the world is
-- marked. Menus nest nine levels deep, and drain requests run for 32 rounds, as in the source.
--
-- Not modelled: the loading of the toolkit, sockets and signal handlers; the backend for macOS
-- and the rest of the one for Windows; the panel of macOS in the plugin for file dialogs, and the
-- plugin that takes pictures of a window, which calls Cocoa only. Strings that PowerShell reads
-- are written, and how it reads them is not.
pub mod Base
pub mod CString
pub mod Packet
pub mod Services
pub mod Argv
pub mod Readiness
pub mod Utf8
pub mod Window
pub mod Session
pub mod Effect
pub mod Notification
pub mod Pipe
pub mod Clipboard
pub mod FileDialog
pub mod Handoff
pub mod Menu
pub mod MenuBars
pub mod Restart
pub mod Run
pub mod Shell
pub mod Open
pub mod Opener
pub mod Dispatch
pub mod Assets
pub mod AssetUrls
pub mod AutoLaunch
pub mod Json
pub mod JsString
pub mod Accelerator
pub mod Processes
pub mod Commands
pub mod CommandLine
pub mod Examples
