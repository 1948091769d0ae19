-- ===== src/Open/Sound.antt =====
-- runtime/linux/linux_backend.c: opening windows and the contexts of Window.Registry.Sound.
use lepusa.Base.{
  ℕ, false, ◌||◌, ◌≡◌, inl, inr, refl, Option, none, some, arith, ◌==◌, Bool-cases, length,
  get_elem?, Bytes, codes, ℤ, pos,
}
use lepusa.CString.{range_equals}
use lepusa.Effect.{M, ◌>>=◌, ◌>>◌, new, Keeps, keeping}
use lepusa.Handoff.Invariant.{apply_records_inv}
use lepusa.Open.{
  App, is_set, open_menu, place_window, announce_window, reveal_window, fill_window, open_window,
  open_sized, open_window_from_record, open_record, apply_open_windows, dimension, enter_window,
  prepare_content, fill_with,
}
use lepusa.Packet.Numbers.{parse_record_int}
use lepusa.Packet.{NativeOperationRecord}
use lepusa.Session.{World, Toolkit, window_new, content_manager_new}
use lepusa.MenuBars.Sound.{Good, set_window_menu_bar-Good, if-Good}
use lepusa.Window.Registry.Sound.{register_window_slot-IsSound}
use lepusa.Window.Registry.{Absent}
use lepusa.Window.{WindowSlot, find_window_slot_exact, register_window_slot}

-- What the toolkit must do: a window that it creates is not one that the table still holds.
abbrev pub GivesNew : Toolkit → Type 0
GivesNew toolkit =
    (world : World) → Good world → Absent (toolkit.created window_new world) world.context.windows

is_set-none {ℓ} : {A : Type ℓ} (o : Option A) → is_set o ≡ false → o ≡ none
is_set-none none e = refl
is_set-none (some a) e = cc

abbrev Preserves : M (Unit {0}) → Type 0
Preserves m = (w : World) → Good w → Good (m w).1

Keeps-Preserves : (m : M (Unit {0})) → Keeps m → Preserves m
Keeps-Preserves m quiet w good = let kept = (quiet w).context in rw kept good

-- That nothing in the table stands in the way of a window under a label.
abbrev Free : ℕ → Bytes → World → Type 0
Free window label w =
    Absent window w.context.windows × (find_window_slot_exact w.context label ≡ none)

module _ (toolkit : Toolkit) (app : App) where
  open_menu-Good :
      (payload : Option Bytes) (i : ℕ) (o : Option WindowSlot) (world : World)
      → get_elem? world.context.windows i ≡ o
      → Good world
      → Good (open_menu toolkit app payload i o world)
  unfolding open_menu
  open_menu-Good none i slot world h good = good
  open_menu-Good (some payload) i none world h good = good
  open_menu-Good (some payload) i (some slot) world h good =
      if-Good slot.has_window_menu _ _ good
        (set_window_menu_bar-Good toolkit i slot payload world h good)

  place_window-Good :
      (label : Bytes) (window box webview : ℕ) (world : World)
      → Good world
      → Free window label world
      → Good (place_window toolkit app label window box webview world).1
  unfolding place_window
  place_window-Good label window box webview world good (absent, fresh) =
      let registered = register_window_slot label window box webview world.context in
      let placed = record world { context = registered.0 } in
      let i = length world.context.windows in
      let sound : Good placed =
        register_window_slot-IsSound label window box webview world.context good absent fresh in
      let menu =
        open_menu-Good placed.context.app_menu_payload i (get_elem? placed.context.windows i) placed
          refl sound in
      elim (Bool-cases registered.1) [ inl entered ↦ rw entered menu | inr full ↦ rw full sound ]

  pub announce_window-Keeps :
      (r : NativeOperationRecord) (width height : ℤ) (window manager box webview : ℕ)
      → Keeps (announce_window toolkit app r width height window manager box webview)
  unfolding announce_window
  announce_window-Keeps r width height window manager box webview = search keeping

  pub reveal_window-Keeps :
      (url : Bytes) (window webview : ℕ) → Keeps (reveal_window toolkit app url window webview)
  unfolding reveal_window
  reveal_window-Keeps url window webview = search keeping

  reveal-Preserves :
      (url : Bytes) (window webview : ℕ) → Preserves (reveal_window toolkit app url window webview)
  reveal-Preserves url window webview =
      Keeps-Preserves (reveal_window toolkit app url window webview)
        (reveal_window-Keeps url window webview)

  -- What is done before the window is entered leaves the table alone.
  after_Keeps {ℓ} :
      {A : Type ℓ} (m : M A) (k : A → M (Unit {0})) (window : ℕ) (label : Bytes)
      → Keeps m
      → ((a : A) (v : World) → Good v → Free window label v → Good (k a v).1)
      → (w : World) → Good w
      → Free window label w
      → Good ((m >>= k) w).1
  after_Keeps m k window label quiet h w good free =
      let kept = (quiet w).context in
      let free' : Free window label (m w).1 = rw kept free in h (m w).0 (m w).1 (rw kept good) free'

  enter_window-Good :
      (r : NativeOperationRecord) (width height : ℤ) (window manager box webview : ℕ) (w : World)
      → Good w
      → Free window r.window w
      → Good (enter_window toolkit app r width height window manager box webview w).1
  unfolding enter_window
  enter_window-Good r width height window manager box webview w good free =
      let announced = announce_window toolkit app r width height window manager box webview in
      let placed = place_window toolkit app r.window window box webview in
      reveal-Preserves r.url window webview ((announced >> placed) w).1 (
        after_Keeps announced (λ a. placed) window r.window
          (announce_window-Keeps r width height window manager box webview)
          (λ a. place_window-Good r.window window box webview) w good free)

  pub prepare_content-Keeps :
      (r : NativeOperationRecord) (manager : ℕ) → Keeps (prepare_content toolkit app r manager)
  unfolding prepare_content
  prepare_content-Keeps r manager = search keeping

  fill_with-Good :
      (r : NativeOperationRecord) (width height : ℤ) (window manager : ℕ) (p : ℕ × ℕ) (w : World)
      → Good w
      → Free window r.window w
      → Good (fill_with toolkit app r width height window manager p w).1
  unfolding fill_with
  fill_with-Good r width height window manager (webview, box) w good free =
      let entered = enter_window-Good r width height window manager box webview w good free in
      elim (Bool-cases (webview == 0 || box == 0)) [
        | inl null ↦ rw null good
        | inr live ↦ rw live entered
      ]

  fill_window-Good :
      (r : NativeOperationRecord) (width height : ℤ) (window manager : ℕ) (w : World)
      → Good w
      → Free window r.window w
      → Good (fill_window toolkit app r width height window manager w).1
  unfolding fill_window
  fill_window-Good r width height window manager =
      after_Keeps (prepare_content toolkit app r manager)
        (fill_with toolkit app r width height window manager) window r.window
        (prepare_content-Keeps r manager) (fill_with-Good r width height window manager)

  module _ (fresh : GivesNew toolkit) where
    open_window-Good :
        (r : NativeOperationRecord) (width height : ℤ) (w : World)
        → Good w
        → find_window_slot_exact w.context r.window ≡ none
        → Good (open_window toolkit app r width height w).1
    unfolding open_window
    open_window-Good r width height w good unknown =
        let window = toolkit.created window_new w in
        let made = (new toolkit window_new w).1 in
        let manager = new toolkit content_manager_new made in
        let filled =
          fill_window-Good r width height window manager.0 manager.1 good (fresh w good, unknown) in
        elim (Bool-cases (window == 0 || manager.0 == 0)) [
          | inl null ↦ rw null good
          | inr live ↦ rw live filled
        ]

    open_sized-Good :
        (r : NativeOperationRecord) (width height : Option ℤ) (w : World)
        → Good w
        → find_window_slot_exact w.context r.window ≡ none
        → Good (open_sized toolkit app r width height w).1
    unfolding open_sized
    open_sized-Good r (some width) (some height) w good unknown =
        open_window-Good r width height w good unknown
    open_sized-Good r (some width) none w good unknown = good
    open_sized-Good r none height w good unknown = good

    open_record-Good :
        (r : NativeOperationRecord) (w : World) → Good w → Good (open_record toolkit app r w)
    unfolding open_record open_window_from_record
    open_record-Good r w good =
        let width = dimension (pos 960) (parse_record_int r.width) in
        let height = dimension (pos 640) (parse_record_int r.height) in
        let found = is_set (find_window_slot_exact w.context r.window) in
        if-Good (range_equals r.kind (codes "open-window")) _ _
          (elim (Bool-cases (length r.window == 0 || length r.url == 0 || found)) [
            | inl refused ↦ rw refused good
            | inr free ↦
                let unknown : found ≡ false = ground arith in
                rw free (
                  open_sized-Good r width height w good
                    (is_set-none (find_window_slot_exact w.context r.window) unknown))
          ])
          good

    pub apply_open_windows-IsSound :
        (packet : Option Bytes) (world : World)
        → Good world
        → Good (apply_open_windows toolkit app packet world)
    unfolding apply_open_windows
    apply_open_windows-IsSound packet world good =
        apply_records_inv Good (open_record toolkit app) open_record-Good packet world good
