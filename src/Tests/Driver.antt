-- ===== src/Tests/Driver.antt =====
-- The driver's theorems at concrete inputs: on a device that is a memory, and on one that answers
-- after some reads.
use sc_co_si_m.Prelude.{
  ℕ, zero, suc, ◌+◌, ◌*◌, ◌/◌, ◌%◌, ◌^◌, ◌<◌, ◌≡◌, arith, refl, if◌then◌else◌, ◌==◌, bit_or,
}
use sc_co_si_m.Driver.Machine.{Device, IsStorage, done}
use sc_co_si_m.Driver.Map.{access_base}
use sc_co_si_m.Driver.Rules.{FwDs, agree, setup_fw, check_fw_regs}
use sc_co_si_m.Driver.Rules.Laws.{InSetup, after_setup, check_fw_regs-setup_fw}
use sc_co_si_m.Driver.Bram.{DirectAccessDs}
use sc_co_si_m.Driver.Packets.{AccessDs, access_bram_fw}
use sc_co_si_m.Driver.Packets.Laws.{access_bram_fw-read, later}
use sc_co_si_m.Driver.Stats.{
  Counters, InitStats, StatDs, init_stats, read_stats_per_port, read_stats_per_all_ports,
}
use sc_co_si_m.Driver.Stats.Laws.{
  HoldsAll, counters_of, report, sum_counters, read_stats_since_load,
}
use sc_co_si_m.Driver.Ioctl.{IoctlAbi, UserArg, my_unlocked_ioctl, ioctl_read_stats}
use sc_co_si_m.Driver.Ioctl.Laws.{device_of, my_unlocked_ioctl-non_root}

abbrev memory_device : Device (ℕ → ℕ)
memory_device = record {
  ioread32 = λ a s. (s a, s);
  iowrite32 = λ v a s b. if b == a then v else s b;
}

memory_device-IsStorage : (A : ℕ → Type 0) → IsStorage memory_device A
memory_device-IsStorage A = record {
  read_pure = λ a s i. refl;
  read_written = λ a v s i. ground arith;
  read_other = λ a b v s i j n. ground arith;
}

abbrev no_memory : ℕ → ℕ
no_memory a = 0

abbrev some_fw : FwDs
some_fw = record {
  op_code = 0;
  input_port = 2;
  output_port = 1;
  l_addr_reg = 4;
  h_addr_reg = 16;
  rule_reg = 0xE2;
}

check_fw_regs-setup_fw_example :
    let t = after_setup memory_device some_fw no_memory in
    (setup_fw memory_device 0 some_fw no_memory ≡ done tt t)
    × (check_fw_regs memory_device 0 some_fw t ≡ done (agree, some_fw) t)
check_fw_regs-setup_fw_example =
    check_fw_regs-setup_fw memory_device (memory_device-IsStorage InSetup) some_fw no_memory
      (omega arith) (omega arith)

abbrev some_direct : DirectAccessDs
some_direct = record { op_code = 0; bram_no = 3; addr = 8; word = 99 }

abbrev some_access : AccessDs
some_access = record { op_code = 1; input_port = 1; output_port = 3; addr = 5; word = 0x1234 }

-- A device that has no response for as many reads as its state says, and then always one.
abbrev slow_device : Device ℕ
slow_device = record { ioread32 = λ a n. answer n; iowrite32 = λ v a n. n }
  where
    answer : ℕ → ℕ × ℕ
    answer zero = (0x52345, 0)
    answer (suc n) = (0x80000000, n)

access_bram_fw-read_example :
    access_bram_fw slow_device 3 1000 some_access 2
    ≡ done (record some_access { word = 0x52345 % 2 ^ 16 }) 0
unfolding access_base later
access_bram_fw-read_example =
    access_bram_fw-read slow_device 3 1000 2 0x80000000 0x52345 some_access 2 0 (omega arith) refl
      (omega arith) (refl, (refl, tt)) refl (omega arith) (omega arith)

abbrev four : Counters → InitStats
four c = record { port1 = c; port2 = c; port3 = c; port4 = c }

abbrev at_load : InitStats
at_load = four (record { total = 0xFFFFFFFF; fifo = 7; fw = 1 })

abbrev gained : InitStats
gained = four (record { total = 5; fifo = 0; fw = 2 })

-- Registers that hold the three counters of every port.
abbrev counter_device : Device Counters
counter_device = record { ioread32 = λ a s. (value a s, s); iowrite32 = λ v a s. s }
  where
    value : ℕ → Counters → ℕ
    value a s = if a % 0x1000 == 36 then s.total else if a % 0x1000 == 44 then s.fifo else s.fw

abbrev some_stat : StatDs
some_stat = record { port = 3; total_passed = 0; fifo_dropped = 0; fw_dropped = 0 }

abbrev HoldsAll_of : (c : Counters) → HoldsAll counter_device c (four c)
HoldsAll_of c = record {
  port1_held = record { total_held = refl; fifo_held = refl; fw_held = refl };
  port2_held = record { total_held = refl; fifo_held = refl; fw_held = refl };
  port3_held = record { total_held = refl; fifo_held = refl; fw_held = refl };
  port4_held = record { total_held = refl; fifo_held = refl; fw_held = refl };
}

read_stats_since_load_example :
    let s : Counters = record { total = 4; fifo = 7; fw = 3 } in
    let l : Counters = record { total = 0xFFFFFFFF; fifo = 7; fw = 1 } in
    (init_stats counter_device l ≡ done at_load l)
    × (read_stats_per_port counter_device 0 at_load some_stat s
        ≡ done (report some_stat (counters_of gained 3)) s)
    × (read_stats_per_all_ports counter_device 0 at_load some_stat s
        ≡ done (report some_stat (sum_counters gained)) s)
read_stats_since_load_example =
    read_stats_since_load counter_device at_load gained (words, words, words, words)
      (few, few, few, few) (record { total = 4; fifo = 7; fw = 3 })
      (HoldsAll_of (record { total = 4; fifo = 7; fw = 3 }))
      (record { total = 0xFFFFFFFF; fifo = 7; fw = 1 }) some_stat
      (HoldsAll_of (record { total = 0xFFFFFFFF; fifo = 7; fw = 1 }))
  where
    words : ((0xFFFFFFFF < 2 ^ 32) × (7 < 2 ^ 32) × (1 < 2 ^ 32))
    words = (omega arith, omega arith, omega arith)

    few : ((5 < 2 ^ 32) × (0 < 2 ^ 32) × (2 < 2 ^ 32))
    few = (omega arith, omega arith, omega arith)

-- The command codes as Linux lays them out on ARM.
abbrev arm_abi : IoctlAbi
arm_abi = record {
  io = λ t n. t * 256 + n;
  ior = λ t n z. bit_or (0x80000000 + z * 65536 + t * 256) n;
  iow = λ t n z. bit_or (0x40000000 + z * 65536 + t * 256) n;
  ioc_type = λ c. c / 256 % 256;
  ioc_size = λ c. c / 65536 % 16384;
}

abbrev some_arg : UserArg
some_arg = record {
  fw = some_fw;
  stat = some_stat;
  access = some_access;
  direct = some_direct;
  rc_in = 24;
  rc_out = 0;
}

my_unlocked_ioctl-non_root_example :
    device_of (
      my_unlocked_ioctl memory_device arm_abi gained 1000 3
        (ioctl_read_stats arm_abi)
        some_arg
        no_memory)
    ≡ no_memory
my_unlocked_ioctl-non_root_example =
    my_unlocked_ioctl-non_root memory_device arm_abi gained 1000 3 (ioctl_read_stats arm_abi)
      some_arg no_memory (omega arith) (λ e. absurd (omega arith)) (λ e. absurd (omega arith))
