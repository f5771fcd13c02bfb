-- ===== src/Qt/Protocol/Emptied.antt =====
-- The queue of the GUI thread is emptied of results.
use mathlib.Core.Path.{subst⁻¹}
use mathlib.Core.List.{append-nil, append_assoc}
use cross_plaform_serial.Common.{
  ℕ, zero, suc, Bool, true, false, List, [], ◌∷◌, ◌++◌, Option, none, some, ◌≡◌, refl, ap, sym, ◌∙◌,
  arith, if-cases, length,
}
use cross_plaform_serial.Qt.Protocol.{Protocol, idle, errs, reports, shut, invoke, dispatches}
use cross_plaform_serial.Qt.Protocol.Coherent.{AtRest, results}

-- One lambda after the other, with how many errors come in during each.
unfoldable pub dispatches_all : List ℕ → Protocol → Protocol
dispatches_all [] p = p
dispatches_all (n ∷ ns) p = dispatches_all ns (dispatches n p)

-- What is queued behind `q` are errors, and no open is under way.
pub record Leaves (q : List (Option Bool)) (p : Protocol) : Type 0 where
  pub behind : List (Option Bool)
  pub no_result : results behind ≡ []
  pub whole : p.queue ≡ q ++ behind
  pub no_thread : p.phase ≡ idle

results-append : (q r : List (Option Bool)) → results (q ++ r) ≡ results q ++ results r
results-append [] r = refl
results-append (none ∷ q) r = results-append q r
results-append (some x ∷ q) r = ap (◌∷◌ x) (results-append q r)

errs-Leaves : (n : ℕ) (q : List (Option Bool)) (p : Protocol) → Leaves q p → Leaves q (errs n p)
unfolding errs
errs-Leaves zero q p v = v
errs-Leaves (suc n) q p v =
    errs-Leaves n q (record p { queue = p.queue ++ (none ∷ []) })
      (record {
        behind = v.behind ++ (none ∷ []);
        no_result =
            results-append v.behind (none ∷ []) ∙ append-nil (results v.behind) ∙ v.no_result;
        whole = ap (λ l. l ++ (none ∷ [])) v.whole ∙ append_assoc q v.behind (none ∷ []);
        no_thread = v.no_thread;
      })

shut-Leaves : (n : ℕ) (q : List (Option Bool)) (p : Protocol) → Leaves q p → Leaves q (shut n p)
unfolding shut
shut-Leaves n q p v =
    if-cases (Leaves q) p.connected
      (λ _.
        errs-Leaves n q (record p { is_open = false; connected = false })
          (record {
            behind = v.behind;
            no_result = v.no_result;
            whole = v.whole;
            no_thread = v.no_thread;
          }))
      (λ _. v)

reports_idle : (p : Protocol) → p.phase ≡ idle → reports p ≡ p
unfolding reports
reports_idle p e = ground arith

dispatches_at :
    (n : ℕ) (c : Option Bool) (cs : List (Option Bool)) (p : Protocol)
    → p.queue ≡ c ∷ cs
    → dispatches n p ≡ invoke n c (record p { queue = cs })
unfolding dispatches
dispatches_at n c cs p e = rw (e, dispatches) refl

invoke-Leaves :
    (n : ℕ) (c : Option Bool) (q : List (Option Bool)) (p : Protocol)
    → Leaves q p
    → Leaves q (invoke n c p)
unfolding invoke
invoke-Leaves n none q p v = rw (reports_idle p v.no_thread) (shut-Leaves n q p v)
invoke-Leaves n (some true) q p v = record {
  behind = v.behind;
  no_result = v.no_result;
  whole = v.whole;
  no_thread = v.no_thread;
}
invoke-Leaves n (some false) q p v = v

dispatches-Leaves :
    (n : ℕ) (c : Option Bool) (q : List (Option Bool)) (p : Protocol)
    → Leaves (c ∷ q) p
    → Leaves q (dispatches n p)
dispatches-Leaves n c q p v = subst⁻¹ (Leaves q) (dispatches_at n c (q ++ v.behind) p v.whole) (
    invoke-Leaves n c q (record p { queue = q ++ v.behind })
      (record {
        behind = v.behind;
        no_result = v.no_result;
        whole = refl;
        no_thread = v.no_thread;
      }))

dispatches_all-AtRest :
    (ns : List ℕ) (q : List (Option Bool)) (p : Protocol)
    → length ns ≡ length q
    → Leaves q p
    → AtRest (dispatches_all ns p)
unfolding dispatches_all
dispatches_all-AtRest [] [] p e v = (v.no_thread, ap results v.whole ∙ v.no_result)
dispatches_all-AtRest [] (c ∷ q) p e v = absurd (omega arith)
dispatches_all-AtRest (n ∷ ns) [] p e v = absurd (omega arith)
dispatches_all-AtRest (n ∷ ns) (c ∷ q) p e v =
    dispatches_all-AtRest ns q (dispatches n p) (omega arith) (dispatches-Leaves n c q p v)

-- Where no open is under way, as many lambdas as wait bring the protocol to rest.
pub emptied-AtRest :
    (ns : List ℕ) (p : Protocol)
    → length ns ≡ length p.queue
    → p.phase ≡ idle
    → AtRest (dispatches_all ns p)
emptied-AtRest ns p e i =
    dispatches_all-AtRest ns p.queue p e
      (record { behind = []; no_result = refl; whole = sym (append-nil p.queue); no_thread = i })
