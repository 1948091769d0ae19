-- ===== src/Packet/Header.antt =====
-- The whole handoff packet, from `immediate` to the last record, and what its handlers see of it.
use mathlib.Core.List.{foldl}
use lepusa.Base.{
  List, ◌∷◌, ◌++◌, ◌≡◌, ◌≢◌, refl, some, arith, length, length-append, drop-append, All, Bytes,
  codes,
}
use lepusa.CString.{mem_eq, c_str}
use lepusa.Packet.Field.{
  IsLength, find_newline_range_found, read_length_complete, IsDigit-ne_newline,
}
use lepusa.Packet.Loop.{IsRecords, for_each_record-foldl}
use lepusa.Packet.{
  NativeOperationRecord, skip_newline, handoff_operations_range, handoff_operation_records,
  apply_records,
}

abbrev pub immediate : Bytes
immediate = codes "immediate"

abbrev pub ops_version : Bytes
ops_version = codes "lepusa-ops-v3"

-- What stands behind the script: a newline, the version, the count and the records.
pub record IsOperations (rs : List NativeOperationRecord) (operations : Bytes) : Type 0 where
  pub count_line : Bytes
  pub rest : Bytes
  pub records : Bytes
  pub splits : operations ≡ ops_version ++ (b'\n' ∷ (count_line ++ (b'\n' ∷ records)))
  pub count_is : IsLength count_line (length rs)
  pub encoded : IsRecords rest rs records

-- A packet with this label, this script and these operations.
pub record IsHandoff (label script operations packet : Bytes) : Type 0 where
  pub length_line : Bytes
  pub splits :
      packet
      ≡ immediate
        ++ (b'\n'
            ∷ (label ++ (b'\n' ∷ (length_line ++ (b'\n' ∷ (script ++ (b'\n' ∷ operations)))))))
  pub one_line : All (λ c. c ≢ b'\n') label
  pub length_is : IsLength length_line (length script)

-- The operations of a packet stand behind its script.
pub handoff_operations_range_complete :
    {label script operations packet : Bytes}
    → IsHandoff label script operations packet
    → handoff_operations_range (some packet) ≡ some operations
unfolding handoff_operations_range mem_eq skip_newline
handoff_operations_range_complete {label} {script} {operations} h =
    let after = script ++ (b'\n' ∷ operations) in
    rw
      (
        h.splits,
        find_newline_range_found label _ h.one_line,
        find_newline_range_found h.length_line after (IsDigit-ne_newline _ h.length_is.digits),
        read_length_complete h.length_line 0 h.length_is.digits
            (omega (arith, h.length_is.exact, h.length_is.fits)),
        h.length_is.exact,
      )
      (ground
        (arith, drop-append script (b'\n' ∷ operations), length-append script (b'\n' ∷ operations)))

pub handoff_operation_records_complete :
    {label script operations packet : Bytes} {rs : List NativeOperationRecord}
    → IsHandoff label script operations packet
    → (o : IsOperations rs operations)
    → handoff_operation_records (some packet) ≡ some (length rs, o.records)
unfolding handoff_operation_records c_str mem_eq
handoff_operation_records_complete {packet} h o =
    let at_operations = handoff_operations_range_complete h in
    rw
      (
        at_operations,
        o.splits,
        find_newline_range_found o.count_line o.records (IsDigit-ne_newline _ o.count_is.digits),
        read_length_complete o.count_line 0 o.count_is.digits
            (omega (arith, o.count_is.exact, o.count_is.fits)),
        o.count_is.exact,
      )
      (refl)

-- Each handler sees every record of a well-formed packet once, in the order of the packet.
pub apply_records-foldl {ℓ} :
    {S : Type ℓ} (handle : NativeOperationRecord → S → S) {label script operations packet : Bytes}
    {rs : List NativeOperationRecord} (s : S)
    → IsHandoff label script operations packet
    → IsOperations rs operations
    → apply_records (some packet) handle s ≡ foldl (λ t r. handle r t) s rs
unfolding apply_records
apply_records-foldl handle s h o =
    let e = handoff_operation_records_complete h o in
    rw (apply_records, e) (for_each_record-foldl handle s o.encoded)
