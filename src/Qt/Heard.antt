-- ===== src/Qt/Heard.antt =====
-- The bytes that the callbacks of a client of the desktop backend hand on, against those that the
-- device delivers.
use cross_plaform_serial.Qt.Notified.{work-Notified, Notified, IsDrained}
use cross_plaform_serial.Asio.Run.{works}
use mathlib.Core.List.{append-nil, append_assoc}
use mathlib.Core.Path.{subst⁻¹}
use cross_plaform_serial.Asio.Stream.{arriving, available}
use cross_plaform_serial.Asio.State.{Completion, Asio}
use cross_plaform_serial.Qt.Desktop.{works_all, works_one, handle_all, Client}
use cross_plaform_serial.Asio.Io.{work}
use cross_plaform_serial.Device.{Device}
use cross_plaform_serial.Common.{
  get_elem?, Option-cases, ap, arith, ◌∙◌, inl, inr, refl, sym, ◌∙◌, ◌≤◌, ◌≢◌, ◌∷◌, [], length,
  ◌++◌, ◌≡◌, Bytes, List, ℕ,
}
use cross_plaform_serial.Qt.Link.{Call, received, erred}
use cross_plaform_serial.Asio.State.{reading, posted, writing}
use cross_plaform_serial.Types.{Callbacks, Notice, ready_read}

-- The bytes of the signals `dataReceived`.
abbrev pub heard : List Call → Bytes
heard [] = []
heard (received bytes ∷ cs) = bytes ++ heard cs
heard (erred message ∷ cs) = heard cs

pub heard-append : (cs ds : List Call) → heard (cs ++ ds) ≡ heard cs ++ heard ds
heard-append [] ds = refl
heard-append (received bytes ∷ cs) ds =
    ap (◌++◌ bytes) (heard-append cs ds) ∙ sym (append_assoc bytes (heard cs) (heard ds))
heard-append (erred message ∷ cs) ds = heard-append cs ds

-- The size of `readScratch_` and of the buffer in `CabiController::handleReadyRead`.
abbrev pub room : ℕ
room = 4096

module _ {d : Device} where
  -- What the read callback of a client that `listens` does, and what the other two leave alone.
  pub record IsReader (c : Client d) (listens : c.Port → Type 0) : Type 1 where
    pub backend_stored : (s : Asio d) (p : c.Port) → c.backend (c.with_backend s p) ≡ s
    pub still_listens : (s : Asio d) (p : c.Port) → listens p → listens (c.with_backend s p)
    pub reads :
        (p : c.Port)
        → listens p
        → length (available (c.backend p)) ≤ room
        → let (q, calls) = c.handle ready_read p in
          listens q
          × (heard calls ≡ available (c.backend p))
          × (available (c.backend q) ≡ [])
          × ((c.backend q).callbacks ≡ (c.backend p).callbacks)
    pub ignores :
        (n : Notice) (p : c.Port)
        → n ≢ ready_read
        → let (q, calls) = c.handle n p in (q ≡ p) × (heard calls ≡ [])

module _ {d : Device} {c : Client d} {listens : c.Port → Type 0} (reader : IsReader c listens) where
  -- After these notices the client listens, has handed on `bytes`, and none wait.
  abbrev Handled : List Notice → Bytes → c.Port → Type 0
  Handled ns bytes p =
      let (q, calls) = handle_all c ns p in
      listens q × (heard calls ≡ bytes) × IsDrained (c.backend q)

  heard_one :
      (n : Notice) (bytes : Bytes) (p : c.Port)
      → (let (q, calls) = c.handle n p in
          listens q × (heard calls ≡ bytes) × IsDrained (c.backend q))
      → Handled (n ∷ []) bytes p
  unfolding handle_all
  heard_one n bytes p (l, h, v) = (l, ap heard (append-nil (c.handle n p).1) ∙ h, v)

  handle_all-heard :
      (bytes : Bytes) (s : Asio d) (p : c.Port)
      → Notified bytes s
      → length bytes ≤ room
      → listens p
      → Handled s.notices bytes (c.with_backend s p)
  unfolding handle_all
  handle_all-heard bytes s p (r, a, inl e) short l =
      let b = reader.backend_stored s p in
      subst⁻¹ (λ ns. Handled ns bytes (c.with_backend s p)) e
        (heard_one ready_read bytes (c.with_backend s p) (
          let (l', h, empty, same) =
            reader.reads (c.with_backend s p) (reader.still_listens s p l) (rw (b, a) short) in
          (
            l',
            h ∙ ap available b ∙ a,
            (
              empty,
              ap (λ (k : Callbacks). k.on_ready_read) (same ∙ ap (λ (t : Asio d). t.callbacks) b)
                  ∙ r,
            ),
          )))
  handle_all-heard bytes s p (r, a, inr (z, inl e)) short l =
      subst⁻¹ (λ ns. Handled ns bytes (c.with_backend s p)) e
        (reader.still_listens s p l, sym z, rw (reader.backend_stored s p) (a ∙ z, r))
  handle_all-heard bytes s p (r, a, inr (z, inr (n, e, ne))) short l =
      subst⁻¹ (λ ns. Handled ns bytes (c.with_backend s p)) e
        (heard_one n bytes (c.with_backend s p) (
          let (same, silent) = reader.ignores n (c.with_backend s p) ne in
          (
            subst⁻¹ listens same (reader.still_listens s p l),
            silent ∙ sym z,
            subst⁻¹ (λ q. IsDrained (c.backend q)) same (rw (reader.backend_stored s p) (a ∙ z, r)),
          )))

  -- A step of the worker thread hands on what the device delivers in it.
  works_one-heard :
      (w : Completion) (p : c.Port)
      → length (arriving (works w) (c.backend p)) ≤ room
      → listens p
      → IsDrained (c.backend p)
      → let (q, calls) = works_one c w p in
        listens q × (heard calls ≡ arriving (works w) (c.backend p)) × IsDrained (c.backend q)
  unfolding works_one
  works_one-heard w p short l v =
      let s = record (c.backend p) { notices = [] } in
      handle_all-heard (arriving (works w) s) (work w s) p (work-Notified w s refl v) short l

-- `async_read_some` never delivers more than its buffer holds.
abbrev pub IsShort : List Completion → Type 0
IsShort [] = Unit
IsShort (w ∷ ws) = (length w.arrived ≤ room) × IsShort ws

module _ {d : Device} where
  length-arriving : (w : Completion) (s : Asio d) → length (arriving (works w) s) ≤ length w.arrived
  length-arriving w s = elim (Option-cases (get_elem? s.pending w.handler)) [
    | inl g ↦ ground arith
    | inr (reading, g) ↦ ground arith
    | inr (posted bytes, g) ↦ ground arith
    | inr (writing bytes, g) ↦ ground arith
  ]

  -- What the device delivers in these steps of the worker thread.
  abbrev pub delivers : (c : Client d) → List Completion → c.Port → Bytes
  delivers c [] p = []
  delivers c (w ∷ ws) p = arriving (works w) (c.backend p) ++ delivers c ws (works_one c w p).0

module _ {d : Device} {c : Client d} {listens : c.Port → Type 0} (reader : IsReader c listens) where
  pub works_all-heard :
      (ws : List Completion) (p : c.Port)
      → IsShort ws
      → listens p
      → IsDrained (c.backend p)
      → let (q, calls) = works_all c ws p in
        (heard calls ≡ delivers c ws p) × listens q × IsDrained (c.backend q)
  unfolding works_all
  works_all-heard [] p short l v = (refl, l, v)
  works_all-heard (w ∷ ws) p (k, short) l v =
      let (q, calls) = works_one c w p in
      let (l1, h1, v1) =
        works_one-heard reader w p (omega (arith, k, length-arriving w (c.backend p))) l v in
      let (h2, l2, v2) = works_all-heard ws q short l1 v1 in
      (heard-append calls (works_all c ws q).1 ∙ rw (h1, h2) refl, l2, v2)
