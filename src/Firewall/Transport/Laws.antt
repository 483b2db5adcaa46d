-- ===== src/Firewall/Transport/Laws.antt =====
-- The two transports compared, over a sequence of reads.
use sc_co_si_m.Prelude.{ℕ, ◌≡◌, false, Bool, refl, ap, Option, some, List, [], ◌∷◌, ◌++◌, All}
use sc_co_si_m.Firewall.Registers.{ok_response, b_transport}
use sc_co_si_m.Firewall.Transport.{Signals, Reply, fetch, b_transport_read, transport_dbg_read}

-- Reads of words, one after the other: the data of each, and m_register_read in the end. Between
-- two reads the signals may change.
module _ (read : Signals → ℕ → ℕ → Bool → ℕ → Reply) where
  unfoldable pub reads : List (Signals × ℕ) → ℕ → List (Option ℕ) × ℕ
  reads [] before = ([], before)
  reads ((g, a) ∷ rs) before =
      let r = read g 4 a false before in
      let (values, last) = reads rs r.register_read in (r.bytes ∷ values, last)

abbrev pub IsAdmitted : Signals × ℕ → Type 0
IsAdmitted r = b_transport 4 r.1 false ≡ ok_response

b_transport_admitted :
    (g : Signals) (a before : ℕ)
    → b_transport 4 a false ≡ ok_response
    → let r = b_transport_read g 4 a false before in
      (r.bytes ≡ some (fetch g a before)) × (r.register_read ≡ fetch g a before)
unfolding b_transport_read
b_transport_admitted g a before e = rw (b_transport_read, e) (refl, refl)

dbg_admitted :
    (g : Signals) (a before : ℕ)
    → b_transport 4 a false ≡ ok_response
    → let r = transport_dbg_read g 4 a false before in
      (r.bytes ≡ some before) × (r.register_read ≡ fetch g a before)
unfolding transport_dbg_read
dbg_admitted g a before e = rw (transport_dbg_read, e) (refl, refl)

-- A sequence of reads of words in the four windows by transport_dbg gives what the same reads by
-- b_transport give, one read late: the first gives what m_register_read held, and what the last
-- read found is given to nobody.
pub dbg_one_late :
    (rs : List (Signals × ℕ)) (before : ℕ)
    → All IsAdmitted rs
    → let (late, last) = reads transport_dbg_read rs before in
      let (values, end) = reads b_transport_read rs before in
      (late ++ some last ∷ [] ≡ some before ∷ values) × (last ≡ end)
unfolding reads
dbg_one_late [] before h = (refl, refl)
dbg_one_late ((g, a) ∷ rs) before h =
    let d = dbg_admitted g a before h.0 in
    let b = b_transport_admitted g a before h.0 in
    let (e, f) = dbg_one_late rs (fetch g a before) h.1 in
    rw (d.0, d.1, b.0, b.1) (ap (λ l. some before ∷ l) e, f)
