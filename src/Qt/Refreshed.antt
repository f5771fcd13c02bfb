-- ===== src/Qt/Refreshed.antt =====
-- `PortListModelCabi::refresh` against `PortListModel::refresh`.
use cross_plaform_serial.Common.{
  take-all, length, take, false, ◌==◌, ==_iff, some, ◌≡◌, arith, Bytes, suc, ℕ,
}
use mathlib.Core.List.{append_assoc, List}
use cross_plaform_serial.Common.{◌++◌, ◌∷◌, [], map, ap, sym, ◌∙◌, refl}
use cross_plaform_serial.PortInfo.{SerialPortInfo}
use cross_plaform_serial.CAbi.Ports.{PortInfoBlock, Heap, lookup, cps_available_ports}
use cross_plaform_serial.CAbi.Freed.{
  strings_at, entries_at, end_at, filled, five, IsBelow, IsBelow-suc, length-entries_at,
  cps_free_ports-cps_available_ports,
}
use cross_plaform_serial.Qt.CText.{c_string}
use cross_plaform_serial.Qt.Rows.{
  Entry, safe_utf8, read_entries, read_array, refresh, refresh_cabi, entry_of,
}

-- A row as C strings show it.
abbrev pub cut : Entry → Entry
cut e = record e {
  name = c_string e.name;
  description = c_string e.description;
  manufacturer = c_string e.manufacturer;
}

lookup_past {ℓ} :
    {A : Type ℓ} (k : ℕ) (a : A) (old rest : List (ℕ × A))
    → IsBelow k old
    → lookup k (old ++ ((k, a) ∷ rest)) ≡ some a
lookup_past k a [] rest b = rw ((==_iff k k).1 refl) refl
lookup_past k a ((j, x) ∷ old) rest b =
    let ne : (k == j) ≡ false = ground (arith, b.0) in rw (ne, lookup_past k a old rest b.1) refl

IsBelow-snoc {ℓ} :
    {A : Type ℓ} (k : ℕ) (a : A) (old : List (ℕ × A))
    → IsBelow k old
    → IsBelow (suc k) (old ++ ((k, a) ∷ []))
IsBelow-snoc k a [] b = (omega arith, tt)
IsBelow-snoc k a ((j, x) ∷ old) b = (omega (arith, b.0), IsBelow-snoc k a old b.1)

safe_utf8_past :
    (n : ℕ) (s : Bytes) (old rest : List (ℕ × Bytes)) (h : Heap)
    → IsBelow n old
    → safe_utf8 n (record h { strings = old ++ ((n, s) ∷ rest) }) ≡ some (c_string s)
unfolding safe_utf8
safe_utf8_past n s old rest h b = rw (lookup_past n s old rest b) refl

read_entries_lem :
    (vs : List SerialPortInfo) (n : ℕ) (old : List (ℕ × Bytes)) (h : Heap)
    → IsBelow n old
    → read_entries (entries_at n vs) (record h { strings = old ++ strings_at n vs })
      ≡ some (map cut (refresh vs))
unfolding read_entries refresh entry_of
read_entries_lem [] n old h b = refl
read_entries_lem (v ∷ vs) n old h b =
    let a1 : ℕ × Bytes = (n, v.port_name) in
    let a2 : ℕ × Bytes = (suc n, v.description) in
    let a3 : ℕ × Bytes = (suc (suc n), v.manufacturer) in
    let a4 : ℕ × Bytes = (suc (suc (suc n)), v.serial_number) in
    let a5 : ℕ × Bytes = (suc (suc (suc (suc n))), v.system_location) in
    let last = strings_at (suc (suc (suc (suc (suc n))))) vs in
    let o1 = old ++ (a1 ∷ []) in
    let o2 = o1 ++ (a2 ∷ []) in
    let b1 : IsBelow (suc n) o1 = IsBelow-snoc n v.port_name old b in
    let b2 : IsBelow (suc (suc n)) o2 = IsBelow-snoc (suc n) v.description o1 b1 in
    let b3 = IsBelow-snoc (suc (suc n)) v.manufacturer o2 b2 in
    let b4 = IsBelow-snoc (suc (suc (suc n))) v.serial_number (o2 ++ (a3 ∷ [])) b3 in
    let b5 =
      IsBelow-snoc (suc (suc (suc (suc n)))) v.system_location ((o2 ++ (a3 ∷ [])) ++ (a4 ∷ []))
        b4 in
    let e1 = append_assoc old (a1 ∷ []) (a2 ∷ a3 ∷ a4 ∷ a5 ∷ last) in
    let e2 =
      append_assoc o1 (a2 ∷ []) (a3 ∷ a4 ∷ a5 ∷ last)
      ∙ append_assoc old (a1 ∷ []) (a2 ∷ a3 ∷ a4 ∷ a5 ∷ last) in
    rw
      (
        safe_utf8_past n v.port_name old (a2 ∷ a3 ∷ a4 ∷ a5 ∷ last) h b,
        ap (λ s. safe_utf8 (suc n) (record h { strings = s })) (sym e1)
            ∙ safe_utf8_past (suc n) v.description o1 (a3 ∷ a4 ∷ a5 ∷ last) h b1,
        ap (λ s. safe_utf8 (suc (suc n)) (record h { strings = s })) (sym e2)
            ∙ safe_utf8_past (suc (suc n)) v.manufacturer o2 (a4 ∷ a5 ∷ last) h b2,
        ap
              (λ s.
                read_entries (entries_at (suc (suc (suc (suc (suc n))))) vs)
                  (record h { strings = s }))
              (sym (five old a1 a2 a3 a4 a5 last))
            ∙ read_entries_lem vs (suc (suc (suc (suc (suc n)))))
                (((((old ++ (a1 ∷ [])) ++ (a2 ∷ [])) ++ (a3 ∷ [])) ++ (a4 ∷ [])) ++ (a5 ∷ [])) h b5,
      )
      refl

read_array-cps_available_ports :
    (vs : List SerialPortInfo) (h : Heap)
    → IsBelow h.next h.strings
    → let (p, n, h1) = cps_available_ports vs h in read_array p n h1 ≡ some (map cut (refresh vs))
unfolding read_array cps_available_ports refresh
read_array-cps_available_ports [] h b = refl
read_array-cps_available_ports (v ∷ vs) h b =
    let n = suc h.next in
    let es = entries_at n (v ∷ vs) in
    let all : take (length (v ∷ vs)) es ≡ es =
      take-all (length (v ∷ vs)) es (omega (arith, length-entries_at n (v ∷ vs))) in
    let block : PortInfoBlock = record { count = length (v ∷ vs); entries = es } in
    let h1 : Heap = record h { next = end_at n (v ∷ vs); blocks = (h.next, block) ∷ h.blocks } in
    rw (filled (v ∷ vs) (record h { next = n }), (==_iff h.next h.next).1 refl)
      (ap (λ xs. read_entries xs (record h1 { strings = h.strings ++ strings_at n (v ∷ vs) })) all
        ∙ read_entries_lem (v ∷ vs) n h.strings h1 (IsBelow-suc h.next h.strings b))

-- On a heap whose strings all have addresses below the next one, the refresh of the model over the
-- C interface touches only memory that is allocated, gives the rows of the model over the C++
-- interface, each string up to its first zero byte, and leaves the heap as it was, but for the next
-- address.
pub refresh_cabi-refresh :
    (vs : List SerialPortInfo) (h : Heap)
    → IsBelow h.next h.strings
    → (k : ℕ) × (refresh_cabi vs h ≡ some (map cut (refresh vs), record h { next = k }))
unfolding refresh_cabi
refresh_cabi-refresh vs h b =
    let (n, (k, e)) = cps_free_ports-cps_available_ports vs h b in
    (k, rw (read_array-cps_available_ports vs h b, e) refl)
