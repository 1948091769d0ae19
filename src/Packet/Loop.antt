-- ===== src/Packet/Loop.antt =====
-- runtime/linux/linux_backend.c: the loop over the records of a packet.
use mathlib.Core.List.{foldl}
use lepusa.Base.{
  ℕ, zero, suc, ◌+◌, ◌*◌, ◌≤◌, ◌<◌, List, [], ◌∷◌, ◌≡◌, inl, inr, refl, none, some, arith,
  Option-cases, length, length-append, Bytes,
}
use lepusa.Packet.Record.{IsEncoded, nil, cons, fields, read_record_complete, read_record_sound}
use lepusa.Packet.{NativeOperationRecord, read_native_operation_record, for_each_record}

length-IsEncoded :
    {rest : Bytes} {values : List Bytes} {bytes : Bytes}
    → IsEncoded rest values bytes
    → length rest + length values ≤ length bytes
length-IsEncoded (nil e) = rw e (omega arith)
length-IsEncoded {rest} (cons {value} {values} line after len e t) =
    rw (e, length-append) (omega (arith, length-IsEncoded t, length-append value after))

read_record_shorter :
    (cursor : Bytes) {r : NativeOperationRecord} {rest : Bytes}
    → read_native_operation_record cursor ≡ some (r, rest)
    → length rest + 14 ≤ length cursor
unfolding fields
read_record_shorter cursor {r} {rest} h =
    length-IsEncoded (read_record_sound cursor {r = r} {rest = rest} h)

read_record_short :
    (cursor : Bytes) → length cursor < 14 → read_native_operation_record cursor ≡ none
read_record_short cursor h = elim (Option-cases (read_native_operation_record cursor)) [
  | inl e ↦ e
  | inr ((r, rest), e) ↦
      let shorter = read_record_shorter cursor {r = r} {rest = rest} e in absurd (omega arith)
]

-- These records in a row, and then `rest`.
pub data IsRecords (rest : Bytes) : List NativeOperationRecord → Bytes → Type 0 where
  done : {bytes : Bytes} → bytes ≡ rest → IsRecords rest [] bytes
  next :
      {r : NativeOperationRecord} {rs : List NativeOperationRecord} {bytes : Bytes} (after : Bytes)
      → IsEncoded after (fields r) bytes
      → IsRecords rest rs after
      → IsRecords rest (r ∷ rs) bytes

module _ {ℓ} {S : Type ℓ} (handle : NativeOperationRecord → S → S) where
  -- Over as many encoded records as the count says, the loop handles each once, in order.
  pub for_each_record-foldl :
      {rest : Bytes} {rs : List NativeOperationRecord} {cursor : Bytes} (s : S)
      → IsRecords rest rs cursor
      → for_each_record (length rs) cursor handle s ≡ foldl (λ t r. handle r t) s rs
  unfolding for_each_record
  for_each_record-foldl s (done e) = refl
  for_each_record-foldl s (next {r} {rs} after enc t) =
      rw (for_each_record, read_record_complete r enc) (for_each_record-foldl (handle r s) t)

  -- A count beyond what the bytes can hold changes nothing: every record takes fourteen bytes at least.
  pub for_each_record_bound :
      (n m : ℕ) (cursor : Bytes) (s : S)
      → length cursor < 14 * (n + 1)
      → length cursor < 14 * (m + 1)
      → for_each_record n cursor handle s ≡ for_each_record m cursor handle s
  unfolding for_each_record
  for_each_record_bound zero zero cursor s hn hm = refl
  for_each_record_bound zero (suc m) cursor s hn hm =
      rw (for_each_record, read_record_short cursor (omega arith))
  for_each_record_bound (suc n) zero cursor s hn hm =
      rw (for_each_record, read_record_short cursor (omega arith))
  for_each_record_bound (suc n) (suc m) cursor s hn hm =
      elim (Option-cases (read_native_operation_record cursor)) [
        | inl e ↦ rw (for_each_record, e)
        | inr ((r, rest), e) ↦
            let shorter = read_record_shorter cursor {r = r} {rest = rest} e in
            rw (for_each_record, e)
              (for_each_record_bound n m rest (handle r s) (omega arith) (omega arith))
      ]
