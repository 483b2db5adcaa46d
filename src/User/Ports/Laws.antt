-- ===== src/User/Ports/Laws.antt =====
-- What the tables of the groups' ports give back.
use sc_co_si_m.Prelude.{
  ℕ, ◌+◌, ◌-◌, ◌*◌, ◌^◌, ◌≤◌, ◌<◌, ◌≡◌, ◌≢◌, u32, sub32, arith, true, some, ◌==◌, if◌then◌else◌,
}
use sc_co_si_m.Driver.Machine.{done, return, ◌>>=◌}
use sc_co_si_m.User.Kernel.{Kernel}
use sc_co_si_m.User.Access.{access_bram_fw}
use sc_co_si_m.User.Ports.{
  set_gid_per_noc_inport, store_gid, search, port_result, get_input_port_for_gid,
  get_output_port_for_gid,
}

-- The driver gives access to the words of BRAM 4, of 16 bits each as the switch carries them:
-- `word a s` is the one at address `a` in the state `s`, `put a v s` the state after a write.
pub record HasTable {S : Type 0} (kernel : Kernel S) (word : ℕ → S → ℕ) (put : ℕ → ℕ → S → S)
    : Type 0 where
  pub reads :
      (a : ℕ) (s : S)
      → kernel.ioctl_access_bram
          (record { op_code = 1; input_port = 4; output_port = 4; addr = a; word = 0 })
          s
        ≡ done
            (some
              (record { op_code = 1; input_port = 4; output_port = 4; addr = a; word = word a s }))
            s
  pub writes :
      (a v : ℕ) (s : S)
      → v < 2 ^ 16
      → kernel.ioctl_access_bram
          (record { op_code = 0; input_port = 4; output_port = 4; addr = a; word = v })
          s
        ≡ done
            (some (record { op_code = 0; input_port = 4; output_port = 4; addr = a; word = v }))
            (put a v s)
  pub put_same : (a v : ℕ) (s : S) → v < 2 ^ 16 → word a (put a v s) ≡ v
  pub put_other : (a b v : ℕ) (s : S) → a ≢ b → word b (put a v s) ≡ word b s

module _ {S : Type 0} (kernel : Kernel S) (word : ℕ → S → ℕ) (put : ℕ → ℕ → S → S)
    (table : HasTable kernel word put) where
  read_word : (a : ℕ) (s : S) → access_bram_fw kernel 1 4 4 a 0 s ≡ done (word a s) s
  unfolding access_bram_fw
  read_word a s = ground (arith, table.reads a s)

  -- The first of the three rows from `offset` on that has the group, or the administrator's port.
  abbrev pub row_of : ℕ → ℕ → S → ℕ
  row_of offset gid s =
      if gid == word offset s
      then 1
      else if gid == word (offset + 4) s
      then 2
      else if gid == word (offset + 8) s
      then 3
      else 4

  search_result :
      (offset gid : ℕ) (s : S)
      → (search kernel offset gid 3 0 >>= λ row. return (port_result row)) s
        ≡ done (row_of offset gid s) s
  unfolding search port_result
  search_result offset gid s =
      ground (arith, read_word (offset + 0) s, read_word (offset + 4) s, read_word (offset + 8) s)

  -- With a driver that gives the user-mode library BRAM 4 as a table of words, the ports found for
  -- a group are those of the first of three rows that has it, and where none has it, port 4, which
  -- is the administrator's, and no error.
  pub get_ports_lem :
      (gid : ℕ) (s : S)
      → (get_input_port_for_gid kernel gid s ≡ done (row_of 0 gid s) s)
        × (get_output_port_for_gid kernel gid s ≡ done (row_of 0xC gid s) s)
  unfolding get_input_port_for_gid get_output_port_for_gid
  get_ports_lem gid s = (search_result 0 gid s, search_result 0xC gid s)

  row_address : (p : ℕ) → 1 ≤ p → p ≤ 3 → u32 (0 + sub32 p 1 * 4) ≡ (p - 1) * 4
  row_address p lo hi = omega arith

  pub set_row :
      (gid p : ℕ) (s : S)
      → gid < 2 ^ 16
      → 1 ≤ p
      → p ≤ 3
      → set_gid_per_noc_inport kernel true gid p s ≡ done tt (put ((p - 1) * 4) gid s)
  unfolding set_gid_per_noc_inport store_gid access_bram_fw
  set_row gid p s g lo hi = ground (arith, row_address p lo hi, table.writes ((p - 1) * 4) gid s g)
