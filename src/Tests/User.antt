-- ===== src/Tests/User.antt =====
-- The library of the user mode at concrete inputs.
use sc_co_si_m.Prelude.{ℕ, ◌%◌, ◌^◌, ◌≡◌, arith, ◌↔◌, true, some, ◌==◌, if◌then◌else◌}
use sc_co_si_m.Driver.Machine.{done, return, ◌>>=◌}
use sc_co_si_m.Driver.Rules.{FwDs}
use sc_co_si_m.Firewall.Packet.{read_packet}
use sc_co_si_m.Firewall.Rule.{fw_hit}
use sc_co_si_m.User.Kernel.{Kernel, or_exit}
use sc_co_si_m.User.Rules.{setup_sfw}
use sc_co_si_m.User.Rules.Laws.{SimplyBlocks, setup_sfw_blocks}

abbrev put_word : ℕ → ℕ → (ℕ → ℕ) → ℕ → ℕ
put_word a v m b = if b == a then v else m b

abbrev word_of : ℕ → (ℕ → ℕ) → ℕ
word_of a m = m a % 2 ^ 16

-- A driver whose state is BRAM 4 as it is reached through the switch, which carries 16 bits.
abbrev kernel : Kernel (ℕ → ℕ)
kernel = record {
  ioctl_setup_fw_port = λ fw m. done (some fw) m;
  ioctl_read_fw_port = λ fw m. done (some fw) m;
  ioctl_access_bram = λ r m.
      if r.op_code == 0
      then done (some r) (put_word r.addr r.word m)
      else done (some (record r { word = word_of r.addr m })) m;
  ioctl_direct_access_bram = λ r m. done (some r) m;
  ioctl_read_stats = λ r m. done (some r) m;
  ioctl_read_stats_all = λ r m. done (some r) m;
}

abbrev table : ℕ → ℕ
table a = if a == 4 then 1001 else 1000

abbrev stack : FwDs
stack = record {
  op_code = 0;
  input_port = 0;
  output_port = 0;
  l_addr_reg = 0;
  h_addr_reg = 0;
  rule_reg = 0;
}

setup_sfw_blocks_example :
    (reg : ℕ) × (setup_sfw kernel stack 2 0x40001000 0x40001FFF 1 1 0 ≡ (
      or_exit (
        kernel.ioctl_setup_fw_port (record stack {
          input_port = 2;
          l_addr_reg = 0x40001000;
          h_addr_reg = 0x40001FFF;
          rule_reg = reg;
        }))
      >>= λ r. return tt))
    × ((w : ℕ)
        → (fw_hit (record { read_r = reg; read_l = 0x40001000; read_h = 0x40001FFF }) w ≡ true)
          ↔ SimplyBlocks 0x40001000 0x40001FFF 1 1 0 (read_packet w))
setup_sfw_blocks_example =
    setup_sfw_blocks kernel stack 2 0x40001000 0x40001FFF 1 1 0 (omega arith) (omega arith)
      (omega arith) (omega arith) (omega arith) (omega arith) (omega arith)
