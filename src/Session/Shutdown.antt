-- ===== src/Session/Shutdown.antt =====
-- runtime/linux/linux_backend.c: close_all_windows, from the last window to the first.
use lepusa.Base.{
  ℕ, zero, suc, ◌+◌, ◌-◌, true, false, List, [], ◌∷◌, ◌++◌, ◌≡◌, ◌≢◌, inl, inr, refl, sym, ap, ◌∙◌,
  some, arith, ltb, ◌==◌, if◌then◌else◌, Bool-cases, length, get_elem?, replicate, length-append,
  All,
}
use lepusa.Services.Shutdown.{terminate_tracked_services_lem}
use lepusa.Services.{ServiceProcess, free_entry}
use lepusa.Session.Close.{destroy_window-IsValid, close_from-IsValid}
use lepusa.Session.{World, Toolkit, window_destroyed, destroy_window, close_from, close_all_windows}
use lepusa.Window.Registry.{IsSlot, Absent, IsDistinct, IsValid}
use lepusa.Window.{WindowSlot, take_slot, remove_window_slot}

take_slot_last :
    (ss : List WindowSlot) (s : WindowSlot)
    → Absent s.window ss
    → take_slot s.window (ss ++ s ∷ []) ≡ some (s, ss)
unfolding take_slot
take_slot_last [] s a = ground arith
take_slot_last (x ∷ ss) s (ne, a) = ground (arith, take_slot_last ss s a)

IsDistinct-last :
    (ss : List WindowSlot) (s : WindowSlot) → IsDistinct (ss ++ s ∷ []) → Absent s.window ss
IsDistinct-last [] s d = tt
IsDistinct-last (x ∷ ss) s (a, d) = (not_first ss a, IsDistinct-last ss s d)
  where
    not_first : (ys : List WindowSlot) → Absent x.window (ys ++ s ∷ []) → x.window ≢ s.window
    not_first [] (ne, _) e = ne (sym e)
    not_first (y ∷ ys) (_, a) e = not_first ys a e

IsSlot-last : (ss : List WindowSlot) (s : WindowSlot) → All IsSlot (ss ++ s ∷ []) → IsSlot s
IsSlot-last [] s (h, _) = h
IsSlot-last (x ∷ ss) s (_, h) = IsSlot-last ss s h

-- A list of `n + 1` slots ends in one, which `windows[n]` reads.
record Ends (n : ℕ) (ss : List WindowSlot) : Type 0 where
  before : List WindowSlot
  last : WindowSlot
  splits : ss ≡ before ++ last ∷ []
  counted : length before ≡ n
  read : get_elem? ss n ≡ some last

ends : (n : ℕ) (ss : List WindowSlot) → length ss ≡ suc n → Ends n ss
ends n [] h = absurd (omega arith)
ends zero (s ∷ []) h = record { before = []; last = s; splits = refl; counted = refl; read = refl }
ends zero (s ∷ t ∷ ss) h = absurd (omega arith)
ends (suc n) (s ∷ ss) h =
    let e = ends n ss (omega arith) in
    record {
      before = s ∷ e.before;
      last = e.last;
      splits = ap (◌∷◌ s) e.splits;
      counted = ap suc e.counted;
      read = e.read;
    }

module _ (toolkit : Toolkit) (alone : (w : ℕ) → toolkit.destroyed w ≡ w ∷ []) where
  -- Destroying the last window of the table leaves the windows before it, and clears the services
  -- when there is none.
  destroy_last :
      (world : World) (ss : List WindowSlot) (s : WindowSlot)
      → IsValid world.context
      → world.context.windows ≡ ss ++ s ∷ []
      → ((destroy_window toolkit s.window world).context.windows ≡ ss)
        × ((destroy_window toolkit s.window world).services ≡ (
            if ltb 0 (length ss)
            then world.services
            else replicate (length world.services) free_entry))
  unfolding destroy_window window_destroyed remove_window_slot
  destroy_last world ss s v e =
      let distinct = IsDistinct-last ss s (rw e at v.distinct) in
      let taken = take_slot_last ss s distinct in
      let slot = IsSlot-last ss s (rw e at v.slots) in
      let live : (s.window == 0) ≡ false = ground (arith, slot.window_pos) in
      let counted : world.context.live_windows ≡ length ss + 1 =
        v.counted ∙ ap (length {0}) e ∙ length-append ss (s ∷ []) in
      elim (Bool-cases (ltb 0 (length ss))) [
        | inl more ↦
            let more' : ltb 0 (world.context.live_windows - 1) ≡ true = ground arith in
            rw (alone, e, live, taken, more', more) (refl, refl)
        | inr none_left ↦
            let none_left' : ltb 0 (world.context.live_windows - 1) ≡ false = ground arith in
            let cleared = terminate_tracked_services_lem toolkit.kill_done true world.services in
            rw (alone, e, live, taken, none_left', none_left) (refl, cleared.1)
      ]

  close_step :
      (n : ℕ) (world : World) (s : WindowSlot)
      → get_elem? world.context.windows n ≡ some s
      → (s.window == 0) ≡ false
      → close_from toolkit (suc n) world
        ≡ close_from toolkit n (destroy_window toolkit s.window world)
  unfolding close_from
  close_step n world s read live = rw (close_from, read, live)

  close_done : (world : World) → close_from toolkit zero world ≡ world
  unfolding close_from
  close_done world = refl

  close_from_lem :
      (n : ℕ) (world : World)
      → IsValid world.context
      → length world.context.windows ≡ suc n
      → ((close_from toolkit (suc n) world).context.windows ≡ [])
        × ((close_from toolkit (suc n) world).services
            ≡ replicate (length world.services) free_entry)
  close_from_lem zero world v h =
      let e = ends zero world.context.windows h in
      let slot = IsSlot-last e.before e.last (rw e.splits at v.slots) in
      let live : (e.last.window == 0) ≡ false = ground (arith, slot.window_pos) in
      let (left, services) = destroy_last world e.before e.last v e.splits in
      let empty : e.before ≡ [] = ground (arith, e.counted) in
      let none_left : ltb 0 (length e.before) ≡ false = ground (arith, e.counted) in
      rw (close_step zero world e.last e.read live, close_done)
        (left ∙ empty, services ∙ rw none_left)
  close_from_lem (suc n) world v h =
      let e = ends (suc n) world.context.windows h in
      let slot = IsSlot-last e.before e.last (rw e.splits at v.slots) in
      let live : (e.last.window == 0) ≡ false = ground (arith, slot.window_pos) in
      let (left, services) = destroy_last world e.before e.last v e.splits in
      let more : ltb 0 (length e.before) ≡ true = ground (arith, e.counted) in
      let same = services ∙ rw more in
      let world' = destroy_window toolkit e.last.window world in
      let (closed, cleared) =
        close_from_lem n world' (destroy_window-IsValid toolkit e.last.window world v)
          (ap (length {0}) left ∙ e.counted) in
      rw (close_step (suc n) world e.last e.read live)
        (closed, cleared ∙ ap (λ (es : List ServiceProcess). replicate (length es) free_entry) same)

  -- With a well-formed context that has a window, closing all windows leaves no window and clears the
  -- whole service table, provided that destroying a window signals that window alone.
  pub close_all_windows_lem :
      (world : World)
      → IsValid world.context
      → world.context.windows ≢ []
      → ((close_all_windows toolkit world).context.windows ≡ [])
        × ((close_all_windows toolkit world).context.live_windows ≡ 0)
        × ((close_all_windows toolkit world).services
            ≡ replicate (length world.services) free_entry)
  unfolding close_all_windows
  close_all_windows_lem world v some_window = go (length world.context.windows) refl
    where
      go :
          (n : ℕ)
          → length world.context.windows ≡ n
          → ((close_from toolkit n world).context.windows ≡ [])
            × ((close_from toolkit n world).context.live_windows ≡ 0)
            × ((close_from toolkit n world).services ≡ replicate (length world.services) free_entry)
      go zero e = absurd (some_window (ground arith))
      go (suc n) e =
          let (closed, cleared) = close_from_lem n world v e in
          let kept = close_from-IsValid toolkit (suc n) world v in
          (closed, kept.counted ∙ ap (length {0}) closed, cleared)
