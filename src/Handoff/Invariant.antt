-- ===== src/Handoff/Invariant.antt =====
-- runtime/linux/linux_backend.c: apply_window_controls and apply_bridge_drains, and the
-- well-formed contexts of Window.Registry.
use lepusa.Base.{
  ℕ, zero, suc, Bool, true, false, ◌≡◌, inl, inr, refl, Option, none, some, arith, ◌==◌,
  if◌then◌else◌, Bool-cases, Option-cases, Bytes, codes,
}
use lepusa.CString.{range_equals}
use lepusa.Handoff.{
  destroy_once, control_window, set_size, set_position, set_fullscreen, both, skipped, overflowed,
  IntPair, apply_window_control, apply_window_controls, drain_bridge, apply_bridge_drains,
  parse_pair,
}
use lepusa.Packet.Numbers.{parse_record_int, parse_record_bool}
use lepusa.Packet.{
  NativeOperationRecord, read_native_operation_record, handoff_operation_records, for_each_record,
  apply_records,
}
use lepusa.Session.Close.{destroy_window-inv}
use lepusa.Session.{World, Toolkit, slot_window}
use lepusa.Window.Registry.{IsValid, remove_window_slot-IsValid}
use lepusa.Window.{
  find_window_slot, BridgeContext, remove_window_slot, register_bridge_drain_request,
}

module _ {ℓ κ} {S : Type ℓ} (P : S → Type κ) (handle : NativeOperationRecord → S → S)
    (keep : (r : NativeOperationRecord) (s : S) → P s → P (handle r s)) where
  for_each_record_inv :
      (n : ℕ) (cursor : Bytes) (s : S) → P s → P (for_each_record n cursor handle s)
  unfolding for_each_record
  for_each_record_inv zero cursor s h = h
  for_each_record_inv (suc n) cursor s h =
      elim (Option-cases (read_native_operation_record cursor)) [
        | inl e ↦ rw (for_each_record, e) h
        | inr ((r, rest), e) ↦
            rw (for_each_record, e) (for_each_record_inv n rest (handle r s) (keep r s h))
      ]

  -- A property that every handler call keeps survives a packet, well formed or not.
  pub apply_records_inv : (packet : Option Bytes) (s : S) → P s → P (apply_records packet handle s)
  unfolding apply_records
  apply_records_inv packet s h = elim (Option-cases (handoff_operation_records packet)) [
    | inl e ↦ rw (apply_records, e) h
    | inr ((n, cursor), e) ↦ rw (apply_records, e) (for_each_record_inv n cursor s h)
  ]

set_size-context :
    (window : ℕ) (p : IntPair) (world : World) → (set_size window p world).context ≡ world.context
unfolding set_size
set_size-context window (both a b) world = ground arith
set_size-context window skipped world = refl
set_size-context window overflowed world = refl

set_position-context :
    (window : ℕ) (p : IntPair) (world : World)
    → (set_position window p world).context ≡ world.context
unfolding set_position
set_position-context window (both a b) world = refl
set_position-context window skipped world = refl
set_position-context window overflowed world = refl

set_fullscreen-context :
    (window : ℕ) (p : Option Bool) (world : World)
    → (set_fullscreen window p world).context ≡ world.context
unfolding set_fullscreen
set_fullscreen-context window none world = refl
set_fullscreen-context window (some on) world = refl

module _ {κ} (toolkit : Toolkit) (P : BridgeContext → Type κ)
    (removes : (w : ℕ) (c : BridgeContext) → P c → P (remove_window_slot w c).0) where
  abbrev Kept : World × Bool → Type κ
  Kept p = P p.0.context

  destroy_once-Kept :
      (window : ℕ) (p : World × Bool) → Kept p → Kept (destroy_once toolkit window p)
  unfolding destroy_once
  destroy_once-Kept window (world, true) v = v
  destroy_once-Kept window (world, false) v = destroy_window-inv toolkit P removes window world v

  if-Kept : (b : Bool) (p q : World × Bool) → Kept p → Kept q → Kept (if b then p else q)
  if-Kept true p q hp hq = hp
  if-Kept false p q hp hq = hq

  size-Kept :
      (window : ℕ) (p : IntPair) (world : World) (closed : Bool)
      → Kept (world, closed)
      → Kept (set_size window p world, closed)
  size-Kept window p world closed v = rw set_size-context v

  position-Kept :
      (window : ℕ) (p : IntPair) (world : World) (closed : Bool)
      → Kept (world, closed)
      → Kept (set_position window p world, closed)
  position-Kept window p world closed v = rw set_position-context v

  fullscreen-Kept :
      (window : ℕ) (p : Option Bool) (world : World) (closed : Bool)
      → Kept (world, closed)
      → Kept (set_fullscreen window p world, closed)
  fullscreen-Kept window p world closed v = rw set_fullscreen-context v

  control_window-Kept :
      (r : NativeOperationRecord) (window : ℕ) (p : World × Bool)
      → Kept p
      → Kept (control_window toolkit r window p)
  unfolding control_window
  control_window-Kept r window (world, closed) v = ground (
    arith,
    size-Kept window (parse_pair (parse_record_int r.width) r.height) world closed v,
    position-Kept window (parse_pair (parse_record_int r.x) r.y) world closed v,
    fullscreen-Kept window (parse_record_bool r.fullscreen) world closed v,
    destroy_once-Kept window (world, closed) v,
  )

  apply_window_control-Kept :
      (r : NativeOperationRecord) (p : World × Bool)
      → Kept p
      → Kept (apply_window_control toolkit r p)
  unfolding apply_window_control
  apply_window_control-Kept r (world, closed) v =
      let window = slot_window (find_window_slot world.context r.window) in
      let once = destroy_once-Kept window (world, closed) v in
      let control = control_window-Kept r window (world, closed) v in
      elim (Bool-cases (window == 0)) [
        | inl null ↦ rw null v
        | inr live ↦ elim (Bool-cases (range_equals r.kind (codes "close-window"))) [
          | inl close ↦ rw (live, close) once
          | inr other ↦ elim (Bool-cases (range_equals r.kind (codes "window-control"))) [
            | inl is_control ↦ rw (live, other, is_control) control
            | inr ignored ↦ rw (live, other, ignored) v
          ]
        ]
      ]

  pub apply_window_controls-inv :
      (packet : Option Bytes) (world : World)
      → P world.context
      → P (apply_window_controls toolkit packet world).context
  unfolding apply_window_controls
  apply_window_controls-inv packet world v = elim (Bool-cases (world.context.window == 0)) [
    | inl null ↦ rw null v
    | inr live ↦ rw live (
        apply_records_inv Kept (apply_window_control toolkit) apply_window_control-Kept packet
          (world, false) v)
  ]

-- Window controls keep the context well formed, whatever the packet holds and whichever windows the
-- toolkit signals.
pub apply_window_controls-IsValid :
    (toolkit : Toolkit) (packet : Option Bytes) (world : World)
    → IsValid world.context
    → IsValid (apply_window_controls toolkit packet world).context
apply_window_controls-IsValid toolkit =
    apply_window_controls-inv toolkit IsValid remove_window_slot-IsValid

module _ {κ} (P : BridgeContext → Type κ)
    (registers : (l c : Bytes) (b : BridgeContext)
      → P b
      → P (register_bridge_drain_request l c b)) where
  pub apply_bridge_drains-inv :
      (packet : Option Bytes) (world : World)
      → P world.context
      → P (apply_bridge_drains packet world).context
  unfolding apply_bridge_drains
  apply_bridge_drains-inv packet world v =
      apply_records_inv (λ (w : World). P w.context) drain_bridge each packet world v
    where
      each : (r : NativeOperationRecord) (w : World) → P w.context → P (drain_bridge r w).context
      each r w h = elim (Bool-cases (range_equals r.kind (codes "drain-bridge-window"))) [
        | inl is_drain ↦ rw is_drain (registers r.window r.action w.context h)
        | inr ignored ↦ rw ignored h
      ]
