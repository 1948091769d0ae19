-- ===== src/Run/Sound.antt =====
-- runtime/linux/linux_backend.c: a whole run of the program, and the contexts of
-- Window.Registry.Sound.
use mathlib.Core.List.{foldl}
use lepusa.Base.{
  ℕ, ◌≤◌, Bool, true, false, not, ◌||◌, List, [], ◌∷◌, ◌≡◌, ◌⊎◌, inl, inr, refl, ap, ◌∙◌, arith,
  ◌==◌, if◌then◌else◌, Bool-cases, Bytes,
}
use lepusa.CString.{c_str}
use lepusa.Dispatch.Sound.{script_message_received-IsSound}
use lepusa.Dispatch.{dispatch_menu_click}
use lepusa.Effect.{
  Keeps, keeping, Same, Same-refl, Same-trans, M, ◌>>=◌, ◌>>◌, new, new-Keeps, pure,
}
use lepusa.MenuBars.Sound.{Good, if-Good}
use lepusa.Open.Sound.{GivesNew, apply_open_windows-IsSound}
use lepusa.Open.{App, apply_open_windows}
use lepusa.Run.{
  RunArguments, Host, Event, script_message, destroyed_signal, menu_item_activate,
  tray_icon_activate, enter_first, begin_context, bridge_context, register_assets, first_content,
  reveal_first, show_first, first_window, start_webview, handle_event, main_loop,
}
use lepusa.Session.{World, Toolkit, window_new, content_manager_new}
use lepusa.Session.Close.{window_destroyed-inv}
use lepusa.Shell.Sound.{show_tray_menu-Good}
use lepusa.Window.Registry.Sound.{
  IsSound, IsValid-IsSound, remove_window_slot-IsSound, new_slot-IsSlot,
}
use lepusa.Window.Registry.{new_slot}
use lepusa.Window.{BridgeContext, register_window_slot}

module _ (toolkit : Toolkit) (app : App) where
  register_assets-Keeps :
      (protocol : Bytes) (webview : ℕ) → Keeps (register_assets toolkit app protocol webview)
  unfolding register_assets
  register_assets-Keeps protocol webview = search keeping

  first_content-Keeps :
      (r : RunArguments) (manager : ℕ) → Keeps (first_content toolkit app r manager)
  unfolding first_content
  first_content-Keeps r manager = search keeping

  reveal_first-Keeps :
      (r : RunArguments) (window manager box webview : ℕ)
      → Keeps (reveal_first toolkit app r window manager box webview)
  unfolding reveal_first
  reveal_first-Keeps r window manager box webview = search keeping

  abbrev first_context : Bytes → ℕ → ℕ → ℕ → BridgeContext
  first_context label window box webview = record (bridge_context window webview) {
    windows = new_slot (c_str label) window box webview ∷ [];
    live_windows = 1;
  }

  first_context-IsSound :
      (label : Bytes) (window box webview : ℕ)
      → (window == 0 || box == 0 || webview == 0) ≡ false
      → IsSound (first_context label window box webview)
  first_context-IsSound label window box webview live = IsValid-IsSound (record {
    bounded = ground arith;
    counted = refl;
    slots = (new_slot-IsSlot (c_str label) window box webview live, tt);
    distinct = (tt, tt);
    primary_window = refl;
    primary_webview = refl;
    drains_bounded = ground arith;
  })

  register-first :
      (label : Bytes) (window box webview : ℕ)
      → (window == 0 || box == 0 || webview == 0) ≡ false
      → (register_window_slot (c_str label) window box webview (bridge_context window webview)).0
        ≡ first_context label window box webview
  unfolding register_window_slot
  register-first label window box webview live = rw live refl

  -- The world in which the main loop is entered: the first window stands alone in the table.
  pub record Started (r : RunArguments) (before after : World) : Type 0 where
    pub window : ℕ
    pub box : ℕ
    pub webview : ℕ
    pub objects : (window == 0 || box == 0 || webview == 0) ≡ false
    pub context : after.context ≡ first_context r.label window box webview
    pub services : after.services ≡ before.services
    pub signals : after.signals ≡ before.signals

  abbrev pub Outcome : RunArguments → World → ℕ × World → Type 0
  Outcome r before (code, after) =
      ((code ≡ 0) × Started r before after) ⊎ ((2 ≤ code) × (code ≤ 5) × Same before after)

  show_first-Started :
      (r : RunArguments) (window manager webview box : ℕ) (w : World)
      → (window == 0 || box == 0 || webview == 0) ≡ false
      → Started r w
          ((begin_context toolkit app window webview
              >> register_assets toolkit app r.asset_protocol webview
              >> enter_first toolkit app r.label window box webview
              >> reveal_first toolkit app r window manager box webview)
            w).1
  unfolding begin_context enter_first
  show_first-Started r window manager webview box w live =
      let assets =
        register_assets-Keeps r.asset_protocol webview
          (record w { context = bridge_context window webview }) in
      let before =
        (register_assets toolkit app r.asset_protocol webview
          (record w { context = bridge_context window webview })).1 in
      let entered = (enter_first toolkit app r.label window box webview before).1 in
      let shown = reveal_first-Keeps r window manager box webview entered in
      let placed : entered.context ≡ first_context r.label window box webview =
        ap (λ c. (register_window_slot (c_str r.label) window box webview c).0) assets.context
        ∙ register-first r.label window box webview live in
      record {
        window = window;
        box = box;
        webview = webview;
        objects = live;
        context = shown.context ∙ placed;
        services = shown.services ∙ assets.services;
        signals = shown.signals ∙ assets.signals;
      }

  show_first-Outcome :
      (r : RunArguments) (window manager : ℕ) (p : ℕ × ℕ) (w : World)
      → (window == 0) ≡ false
      → Outcome r w (show_first toolkit app r window manager p w)
  unfolding show_first
  show_first-Outcome r window manager (webview, box) w live =
      elim (Bool-cases (webview == 0 || box == 0)) [
        | inl null ↦ rw null (inr (ground arith, ground arith, Same-refl w))
        | inr made ↦
            rw made (inl (refl, show_first-Started r window manager webview box w (ground arith)))
      ]

  -- What happens first leaves the table, the services and the signals alone.
  after-Outcome {ℓ} :
      {A : Type ℓ} (m : M A) (k : A → M ℕ) (r : RunArguments) (w : World)
      → Keeps m
      → ((a : A) (v : World) → Outcome r v (k a v))
      → Outcome r w ((m >>= k) w)
  after-Outcome m k r w quiet h = elim (h (m w).0 (m w).1) [
    | inl (done, s) ↦ inl (
      done,
      record {
        window = s.window;
        box = s.box;
        webview = s.webview;
        objects = s.objects;
        context = s.context;
        services = s.services ∙ (quiet w).services;
        signals = s.signals ∙ (quiet w).signals;
      },
    )
    | inr (low, high, kept) ↦
        inr (low, high, Same-trans w (m w).1 (k (m w).0 (m w).1).1 (quiet w) kept)
  ]

  abbrev content_or_fail : RunArguments → ℕ → ℕ → M ℕ
  content_or_fail r window manager =
      if window == 0 || manager == 0
      then pure 4
      else (first_content toolkit app r manager >>= show_first toolkit app r window manager)

  content_or_fail-Outcome :
      (r : RunArguments) (window manager : ℕ) (w : World)
      → Outcome r w (content_or_fail r window manager w)
  content_or_fail-Outcome r window manager w = elim (Bool-cases (window == 0 || manager == 0)) [
    | inl null ↦ rw null (inr (ground arith, ground arith, Same-refl w))
    | inr made ↦
        let live : (window == 0) ≡ false = ground arith in
        let shown =
          after-Outcome (first_content toolkit app r manager)
            (show_first toolkit app r window manager) r w (first_content-Keeps r manager)
            (λ p v. show_first-Outcome r window manager p v live) in
        rw made shown
  ]

  first_window-Outcome : (r : RunArguments) (w : World) → Outcome r w (first_window toolkit app r w)
  unfolding first_window
  first_window-Outcome r w =
      after-Outcome (new toolkit window_new)
        (λ window. new toolkit content_manager_new >>= λ manager. content_or_fail r window manager)
        r w (new-Keeps toolkit window_new)
        (λ window v.
          after-Outcome (new toolkit content_manager_new) (content_or_fail r window) r v
            (new-Keeps toolkit content_manager_new)
            (λ manager v. content_or_fail-Outcome r window manager v))

  if-Outcome :
      (b : Bool) (m k : M ℕ) (r : RunArguments) (w : World)
      → Outcome r w (m w)
      → Outcome r w (k w)
      → Outcome r w ((if b then m else k) w)
  if-Outcome true m k r w refused goes_on = refused
  if-Outcome false m k r w refused goes_on = goes_on

  refuse-Outcome :
      (code : ℕ) (r : RunArguments) (w : World) → 2 ≤ code → code ≤ 5 → Outcome r w (pure code w)
  refuse-Outcome code r w low high = inr (low, high, Same-refl w)

  -- Starting gives 0, and then the first window stands alone in the table, under its label cut to what a
  -- slot holds, with its box and web view, none of them NULL, as the primary window; or it gives 2, 3, 4
  -- or 5, and then the table is as it was. Neither touches the services or sends a signal.
  pub start_webview-Outcome :
      (host : Host) (r : RunArguments) (w : World)
      → Outcome r w (start_webview toolkit app host r w)
  unfolding start_webview
  start_webview-Outcome host r w =
      if-Outcome (not host.webkit_loaded) _ _ r w
        (refuse-Outcome 2 r w (ground arith) (ground arith))
        (if-Outcome (not host.texts_allocated) _ _ r w
          (refuse-Outcome 3 r w (ground arith) (ground arith))
          (if-Outcome (not host.gtk_initialized) _ _ r w
            (refuse-Outcome 2 r w (ground arith) (ground arith)) (first_window-Outcome r w)))

  Outcome-Good :
      (r : RunArguments) (w after : World) (code : ℕ)
      → Outcome r w (code, after)
      → code ≡ 0
      → Good after
  Outcome-Good r w after code (inr (low, high, kept)) entered = absurd (omega (arith, low, entered))
  Outcome-Good r w after code (inl (done, s)) entered =
      let placed = s.context in
      rw placed (first_context-IsSound r.label s.window s.box s.webview s.objects)

  handle_event-Good :
      (fresh : GivesNew toolkit) (event : Event) (w : World)
      → Good w
      → Good (handle_event toolkit app w event)
  unfolding handle_event dispatch_menu_click
  handle_event-Good fresh (script_message message) w good =
      script_message_received-IsSound toolkit app message w fresh good
  handle_event-Good fresh (destroyed_signal widget) w good =
      window_destroyed-inv toolkit IsSound remove_window_slot-IsSound w widget good
  handle_event-Good fresh (menu_item_activate event id) w good =
      if-Good (w.context.webview == 0) _ _ good good
  handle_event-Good fresh tray_icon_activate w good = show_tray_menu-Good toolkit w good

  events-Good :
      (fresh : GivesNew toolkit) (events : List Event) (w : World)
      → Good w
      → Good (foldl (handle_event toolkit app) w events)
  events-Good fresh [] w good = good
  events-Good fresh (e ∷ events) w good =
      events-Good fresh events (handle_event toolkit app w e) (handle_event-Good fresh e w good)

  -- Once it has started, the program keeps its table of windows sound, whatever signals the main loop
  -- delivers in whichever order: messages of the page, windows that are destroyed, clicks on menus and
  -- on the tray's icon; whatever the program behind the windows answers, whichever windows the first
  -- packet and the answers open and close and whichever objects the toolkit refuses, if no window that
  -- the toolkit creates is one that a sound table still holds. Sound is: at most 32 slots, as many as
  -- are counted live, each with its window, box and web view and a label that fits, no window twice, at
  -- most 32 drain requests, and as the primary window and web view those of the first slot, or none.
  pub main_loop-IsSound :
      (host : Host) (r : RunArguments) (events : List Event) (w : World)
      → GivesNew toolkit
      → (start_webview toolkit app host r w).0 ≡ 0
      → IsSound
          (main_loop toolkit app r.initial_open_packet events
            (start_webview toolkit app host r w).1).context
  unfolding main_loop
  main_loop-IsSound host r events w fresh entered =
      let begun = (start_webview toolkit app host r w).1 in
      let good = Outcome-Good r w begun _ (start_webview-Outcome host r w) entered in
      events-Good fresh events (apply_open_windows toolkit app r.initial_open_packet begun)
        (apply_open_windows-IsSound toolkit app fresh r.initial_open_packet begun good)
