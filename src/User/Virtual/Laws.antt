-- ===== src/User/Virtual/Laws.antt =====
-- Where the library over a virtual driver does something else than the one over the driver.
use sc_co_si_m.Prelude.{ℕ, ◌-◌, ◌*◌, ◌^◌, ◌≤◌, ◌<◌, ◌≡◌, arith, ap, ◌∙◌, true}
use sc_co_si_m.Driver.Machine.{done}
use sc_co_si_m.User.Kernel.{Kernel}
use sc_co_si_m.User.Ports.{set_gid_per_noc_inport, get_output_port_for_gid}
use sc_co_si_m.User.Ports.Laws.{HasTable, row_of, set_row, get_ports_lem}
use sc_co_si_m.User.Virtual.{sc_set_gid_per_noc_outport}

module _ {S : Type 0} (kernel : Kernel S) (word : ℕ → S → ℕ) (put : ℕ → ℕ → S → S)
    (table : HasTable kernel word put) where
  row_kept :
      (gid other p : ℕ) (s : S)
      → 1 ≤ p
      → p ≤ 3
      → row_of kernel word put table 0xC other (put ((p - 1) * 4) gid s)
        ≡ row_of kernel word put table 0xC other s
  row_kept gid other p s lo hi =
      let a = (p - 1) * 4 in
      ground
        (arith, table.put_other a 12 gid s, table.put_other a 16 gid s, table.put_other a 20 gid s)

  outport_as_inport :
      (gid p : ℕ)
      → 1 ≤ p
      → p ≤ 3
      → sc_set_gid_per_noc_outport kernel true gid p ≡ set_gid_per_noc_inport kernel true gid p
  unfolding sc_set_gid_per_noc_outport set_gid_per_noc_inport
  outport_as_inport gid p lo hi = ground arith

  -- With a driver that gives the user-mode library BRAM 4 as a table of words, setting the group
  -- of an output port of 1 to 3 in the simulation, for a group below 2^16, writes it to the input
  -- port's row, and leaves the output ports of all groups as they were.
  sc_set_outport_sets_inport :
      (gid other p : ℕ) (s : S)
      → gid < 2 ^ 16
      → 1 ≤ p
      → p ≤ 3
      → let t = put ((p - 1) * 4) gid s in
        (sc_set_gid_per_noc_outport kernel true gid p s ≡ done tt t)
        × ((get_output_port_for_gid kernel other t)
            ≡ done (row_of kernel word put table 0xC other s) t)
  sc_set_outport_sets_inport gid other p s g lo hi =
      let t = put ((p - 1) * 4) gid s in
      (
        ap (λ m. m s) (outport_as_inport gid p lo hi)
            ∙ set_row kernel word put table gid p s g lo hi,
        (get_ports_lem kernel word put table other t).1
            ∙ ap (λ n. done n t) (row_kept gid other p s lo hi),
      )
