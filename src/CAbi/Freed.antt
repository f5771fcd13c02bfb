-- ===== src/CAbi/Freed.antt =====
-- The memory of a port array: what `cps_available_ports` allocates, `cps_free_ports` deletes.
use mathlib.Core.List.{append-nil}
use cross_plaform_serial.Common.{
  ℕ, suc, Bytes, false, some, List, [], ◌∷◌, ◌++◌, ◌≡◌, refl, sym, ap, ◌∙◌, arith, length, take-all,
  ◌==◌, ◌<◌, ==_iff,
}
use cross_plaform_serial.PortInfo.{SerialPortInfo}
use cross_plaform_serial.CAbi.Ports.{
  CPortInfo, PortInfoBlock, Heap, remove, dup_str, entry, fill, cps_available_ports, delete_str,
  delete_entry, delete_entries, cps_free_ports,
}

-- The strings, the entries and the next address, for ports whose strings start at an address.
abbrev pub strings_at : ℕ → List SerialPortInfo → List (ℕ × Bytes)
strings_at n [] = []
strings_at n (v ∷ vs) =
    (n, v.port_name)
    ∷ (suc n, v.description)
    ∷ (suc (suc n), v.manufacturer)
    ∷ (suc (suc (suc n)), v.serial_number)
    ∷ (suc (suc (suc (suc n))), v.system_location)
    ∷ strings_at (suc (suc (suc (suc (suc n))))) vs

abbrev pub entries_at : ℕ → List SerialPortInfo → List CPortInfo
entries_at n [] = []
entries_at n (v ∷ vs) =
    record {
      port_name = n;
      description = suc n;
      manufacturer = suc (suc n);
      serial_number = suc (suc (suc n));
      product_id = v.product_id;
      vendor_id = v.vendor_id;
      system_location = suc (suc (suc (suc n)));
    }
    ∷ entries_at (suc (suc (suc (suc (suc n))))) vs

abbrev pub end_at : ℕ → List SerialPortInfo → ℕ
end_at n [] = n
end_at n (v ∷ vs) = end_at (suc (suc (suc (suc (suc n))))) vs

pub length-entries_at : (n : ℕ) (vs : List SerialPortInfo) → length (entries_at n vs) ≡ length vs
length-entries_at n [] = refl
length-entries_at n (v ∷ vs) = omega (arith, length-entries_at (suc (suc (suc (suc (suc n))))) vs)

-- All addresses of a list are below one.
abbrev pub IsBelow {ℓ} : {A : Type ℓ} → ℕ → List (ℕ × A) → Type 0
IsBelow k [] = Unit
IsBelow k ((j, a) ∷ rest) = (j < k) × IsBelow k rest

pub IsBelow-suc {ℓ} :
    {A : Type ℓ} (k : ℕ) (old : List (ℕ × A)) → IsBelow k old → IsBelow (suc k) old
IsBelow-suc k [] b = tt
IsBelow-suc k ((j, a) ∷ rest) b = (omega (arith, b.0), IsBelow-suc k rest b.1)

remove_past {ℓ} :
    {A : Type ℓ} (k : ℕ) (a : A) (old rest : List (ℕ × A))
    → IsBelow k old
    → remove k (old ++ ((k, a) ∷ rest)) ≡ some (old ++ rest)
remove_past k a [] rest b = rw ((==_iff k k).1 refl) refl
remove_past k a ((j, x) ∷ old) rest b =
    let ne : (k == j) ≡ false = ground (arith, b.0) in rw (ne, remove_past k a old rest b.1) refl

pub five {ℓ} :
    {A : Type ℓ} (xs : List A) (a b c d e : A) (rest : List A)
    → ((((((xs ++ (a ∷ [])) ++ (b ∷ [])) ++ (c ∷ [])) ++ (d ∷ [])) ++ (e ∷ [])) ++ rest)
      ≡ xs ++ (a ∷ b ∷ c ∷ d ∷ e ∷ rest)
five [] a b c d e rest = refl
five (x ∷ xs) a b c d e rest = ap (◌∷◌ x) (five xs a b c d e rest)

pub filled :
    (vs : List SerialPortInfo) (h : Heap)
    → fill vs h ≡ (
      entries_at h.next vs,
      record h { next = end_at h.next vs; strings = h.strings ++ strings_at h.next vs },
    )
unfolding fill entry dup_str
filled [] h = ap (λ s. ([], record h { strings = s })) (sym (append-nil h.strings))
filled (v ∷ vs) h =
    let more : Heap = (entry v h).1 in
    let n = h.next in
    let last = end_at n (v ∷ vs) in
    ap (λ r. ((entry v h).0 ∷ r.0, r.1)) (filled vs more)
    ∙ ap (λ s. (entries_at n (v ∷ vs), record h { next = last; strings = s }))
        (five h.strings (n, v.port_name) (suc n, v.description) (suc (suc n), v.manufacturer)
          (suc (suc (suc n)), v.serial_number) (suc (suc (suc (suc n))), v.system_location)
          (strings_at more.next vs))

-- Deleting the first string behind older ones.
deleted_str :
    (n : ℕ) (s : Bytes) (old rest : List (ℕ × Bytes)) (h : Heap)
    → IsBelow n old
    → delete_str n (record h { strings = old ++ ((n, s) ∷ rest) })
      ≡ some (record h { strings = old ++ rest })
unfolding delete_str
deleted_str n s old rest h b = rw (remove_past n s old rest b) refl

deleted :
    (vs : List SerialPortInfo) (n : ℕ) (old : List (ℕ × Bytes)) (h : Heap)
    → IsBelow n old
    → delete_entries (entries_at n vs) (record h { strings = old ++ strings_at n vs })
      ≡ some (record h { strings = old })
unfolding delete_entries delete_entry
deleted [] n old h b = ap (λ s. some (record h { strings = s })) (append-nil old)
deleted (v ∷ vs) n old h b =
    let b1 = IsBelow-suc n old b in
    let b2 = IsBelow-suc _ old b1 in
    let b3 = IsBelow-suc _ old b2 in
    let b4 = IsBelow-suc _ old b3 in
    let r5 = strings_at (suc (suc (suc (suc (suc n))))) vs in
    let r4 = (suc (suc (suc (suc n))), v.system_location) ∷ r5 in
    let r3 = (suc (suc (suc n)), v.serial_number) ∷ r4 in
    let r2 = (suc (suc n), v.manufacturer) ∷ r3 in
    let r1 = (suc n, v.description) ∷ r2 in
    rw
      (
        deleted_str n v.port_name old r1 h b,
        deleted_str (suc n) v.description old r2 h b1,
        deleted_str (suc (suc n)) v.manufacturer old r3 h b2,
        deleted_str (suc (suc (suc n))) v.serial_number old r4 h b3,
        deleted_str (suc (suc (suc (suc n)))) v.system_location old r5 h b4,
      )
      (deleted vs (suc (suc (suc (suc (suc n))))) old h (IsBelow-suc _ old b4))

freed :
    (k : ℕ) (vs : List SerialPortInfo) (n : ℕ) (h : Heap)
    → IsBelow n h.strings
    → cps_free_ports (some k) (record h {
      strings = h.strings ++ strings_at n vs;
      blocks = (k, record { count = length vs; entries = entries_at n vs }) ∷ h.blocks;
    })
      ≡ some h
unfolding cps_free_ports
freed k vs n h b =
    let same = (==_iff k k).1 refl in
    let all = take-all (length vs) (entries_at n vs) (omega (arith, length-entries_at n vs)) in
    let block : PortInfoBlock = record { count = length vs; entries = entries_at n vs } in
    rw (same, all, deleted vs n h.strings (record h { blocks = (k, block) ∷ h.blocks }) b)
      (rw same refl)

-- On a heap whose strings all have addresses below the next one, freeing the array that
-- `cps_available_ports` returns, also the null pointer for no ports, succeeds: every string and the
-- block are deleted, each once, and the heap is what it was, but for the next address. The count
-- that is returned is the number of ports.
pub cps_free_ports-cps_available_ports :
    (vs : List SerialPortInfo) (h : Heap)
    → IsBelow h.next h.strings
    → let (p, n, h1) = cps_available_ports vs h in
      (n ≡ length vs) × ((k : ℕ) × (cps_free_ports p h1 ≡ some (record h { next = k })))
unfolding cps_available_ports
cps_free_ports-cps_available_ports [] h b = (refl, (h.next, unfold cps_free_ports in refl))
cps_free_ports-cps_available_ports (v ∷ vs) h b =
    let n = suc h.next in
    let last = end_at n (v ∷ vs) in
    (
      refl,
      (
        last,
        rw (filled (v ∷ vs) (record h { next = n }))
            (freed h.next (v ∷ vs) n (record h { next = last }) (IsBelow-suc h.next h.strings b)),
      ),
    )
