-- ===== src/Session/Close.antt =====
-- runtime/linux/linux_backend.c: window_destroyed and the well-formed contexts of
-- Window.Registry.
use mathlib.Core.List.{foldl}
use lepusa.Base.{
  ℕ, zero, suc, List, [], ◌∷◌, inl, inr, ltb, ◌==◌, Bool-cases, Option-cases, length, get_elem?,
}
use lepusa.Session.{
  World, Toolkit, emit, destroy, window_destroyed, destroy_window, close_from, close_all_windows,
}
use lepusa.Window.Registry.{IsValid, remove_window_slot-IsValid}
use lepusa.Window.{remove_window_slot, BridgeContext}

-- A property of contexts that the removal of a window keeps survives what closes windows.
module _ {κ} (toolkit : Toolkit) (P : BridgeContext → Type κ)
    (removes : (w : ℕ) (c : BridgeContext) → P c → P (remove_window_slot w c).0) where
  pub window_destroyed-inv :
      (world : World) (widget : ℕ)
      → P world.context
      → P (window_destroyed toolkit world widget).context
  unfolding window_destroyed
  window_destroyed-inv world widget v =
      let kept = removes widget world.context v in
      elim (Bool-cases (ltb 0 (remove_window_slot widget world.context).0.live_windows)) [
        | inl more ↦ rw more kept
        | inr last ↦ rw last kept
      ]

  foldl-inv :
      (widgets : List ℕ) (world : World)
      → P world.context
      → P (foldl (window_destroyed toolkit) world widgets).context
  foldl-inv [] world v = v
  foldl-inv (w ∷ ws) world v =
      foldl-inv ws (window_destroyed toolkit world w) (window_destroyed-inv world w v)

  pub destroy_window-inv :
      (window : ℕ) (world : World)
      → P world.context
      → P (destroy_window toolkit window world).context
  unfolding destroy_window
  destroy_window-inv window world v =
      foldl-inv (toolkit.destroyed window) (emit (destroy window ∷ []) world) v

  pub close_from-inv :
      (n : ℕ) (world : World) → P world.context → P (close_from toolkit n world).context
  unfolding close_from
  close_from-inv zero world v = v
  close_from-inv (suc n) world v = elim (Option-cases (get_elem? world.context.windows n)) [
    | inl e ↦ rw (close_from, e) (close_from-inv n world v)
    | inr (slot, e) ↦ elim (Bool-cases (slot.window == 0)) [
      | inl null ↦ rw (close_from, e, null) (close_from-inv n world v)
      | inr live ↦
          rw (close_from, e, live)
            (close_from-inv n (destroy_window toolkit slot.window world)
              (destroy_window-inv slot.window world v))
    ]
  ]

  pub close_all_windows-inv :
      (world : World) → P world.context → P (close_all_windows toolkit world).context
  unfolding close_all_windows
  close_all_windows-inv world v = close_from-inv (length world.context.windows) world v

module _ (toolkit : Toolkit) where
  -- Destroying a window keeps the context well formed, whichever windows the toolkit signals.
  pub destroy_window-IsValid :
      (window : ℕ) (world : World)
      → IsValid world.context
      → IsValid (destroy_window toolkit window world).context
  destroy_window-IsValid = destroy_window-inv toolkit IsValid remove_window_slot-IsValid

  pub close_from-IsValid :
      (n : ℕ) (world : World) → IsValid world.context → IsValid (close_from toolkit n world).context
  close_from-IsValid = close_from-inv toolkit IsValid remove_window_slot-IsValid
