-- ===== src/CAbi/Ports.antt =====
-- `cps_available_ports` and `cps_free_ports` of src/CAbi.cpp, on a heap of strings and blocks.
use cross_plaform_serial.Common.{
  ℕ, suc, Bytes, Option, none, some, List, [], ◌∷◌, ◌++◌, length, take, ◌==◌, if◌then◌else◌,
}
use cross_plaform_serial.PortInfo.{SerialPortInfo}

-- `cps_PortInfo`: the strings are addresses.
pub record CPortInfo : Type 0 where
  pub port_name : ℕ
  pub description : ℕ
  pub manufacturer : ℕ
  pub serial_number : ℕ
  pub product_id : ℕ
  pub vendor_id : ℕ
  pub system_location : ℕ

-- `PortInfoBlock`. A pointer to its entries is the address of the block: `offsetof` takes the one
-- to the other and back.
pub record PortInfoBlock : Type 0 where
  pub count : ℕ
  pub entries : List CPortInfo

-- What is allocated and not yet deleted, by its address; every allocation has a new address.
pub record Heap : Type 0 where
  pub next : ℕ
  pub strings : List (ℕ × Bytes)
  pub blocks : List (ℕ × PortInfoBlock)

abbrev pub lookup {ℓ} : {A : Type ℓ} → ℕ → List (ℕ × A) → Option A
lookup k [] = none
lookup k ((j, a) ∷ rest) = let later = lookup k rest in if k == j then some a else later

infixl 10 ◌>>=◌
abbrev pub ◌>>=◌ {ℓ κ} : {A : Type ℓ} {B : Type κ} → Option A → (A → Option B) → Option B
none >>= f = none
some a >>= f = f a

-- Deleting what is not allocated is an error.
abbrev pub remove {ℓ} : {A : Type ℓ} → ℕ → List (ℕ × A) → Option (List (ℕ × A))
remove k [] = none
remove k ((j, a) ∷ rest) =
    let later = remove k rest in if k == j then some rest else (later >>= λ r. some ((j, a) ∷ r))

unfoldable pub dup_str : Bytes → Heap → ℕ × Heap
dup_str s h = (h.next, record h { next = suc h.next; strings = h.strings ++ ((h.next, s) ∷ []) })

-- One round of the loop.
unfoldable pub entry : SerialPortInfo → Heap → CPortInfo × Heap
unfolding dup_str
entry v h =
    let (a, h1) = dup_str v.port_name h in
    let (b, h2) = dup_str v.description h1 in
    let (c, h3) = dup_str v.manufacturer h2 in
    let (d, h4) = dup_str v.serial_number h3 in
    let (e, h5) = dup_str v.system_location h4 in
    (
      record {
        port_name = a;
        description = b;
        manufacturer = c;
        serial_number = d;
        product_id = v.product_id;
        vendor_id = v.vendor_id;
        system_location = e;
      },
      h5,
    )

unfoldable pub fill : List SerialPortInfo → Heap → List CPortInfo × Heap
fill [] h = ([], h)
fill (v ∷ vs) h = let (e, h1) = entry v h in let (es, h2) = fill vs h1 in (e ∷ es, h2)

-- The pointer, the count that is written to `*out_count`, and the heap. The ports are fewer than
-- 2 ^ 31. The block is allocated first and filled in place.
unfoldable pub cps_available_ports : List SerialPortInfo → Heap → Option ℕ × ℕ × Heap
cps_available_ports [] h = (none, 0, h)
cps_available_ports (v ∷ vs) h =
    let n = length (v ∷ vs) in
    let (es, filled) = fill (v ∷ vs) (record h { next = suc h.next }) in
    let block : PortInfoBlock = record { count = n; entries = es } in
    (some h.next, n, record filled { blocks = (h.next, block) ∷ filled.blocks })

unfoldable pub delete_str : ℕ → Heap → Option Heap
delete_str a h = do strings ← remove a h.strings; some (record h { strings = strings })

unfoldable pub delete_entry : CPortInfo → Heap → Option Heap
delete_entry e h = do
  h1 ← delete_str e.port_name h
  h2 ← delete_str e.description h1
  h3 ← delete_str e.manufacturer h2
  h4 ← delete_str e.serial_number h3
  delete_str e.system_location h4

unfoldable pub delete_entries : List CPortInfo → Heap → Option Heap
delete_entries [] h = some h
delete_entries (e ∷ es) h = do h1 ← delete_entry e h; delete_entries es h1

-- The loop runs over the first `count` entries.
unfoldable pub cps_free_ports : Option ℕ → Heap → Option Heap
cps_free_ports none h = some h
cps_free_ports (some a) h = do
  block ← lookup a h.blocks
  h1 ← delete_entries (take block.count block.entries) h
  blocks ← remove a h1.blocks
  some (record h1 { blocks = blocks })
