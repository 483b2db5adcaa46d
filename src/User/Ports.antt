-- ===== src/User/Ports.antt =====
-- is_admin, and the tables in BRAM 4 that give a group its input and its output port:
-- setGidPerNoCInport, setGidPerNoCOutport, getInputPortForGid and getOutputPortForGid.
pub mod Laws
use sc_co_si_m.Prelude.{
  ℕ, zero, suc, ◌+◌, ◌*◌, ◌^◌, Bool, true, false, ◌||◌, List, [], ◌∷◌, Option, none, some, ltb, leb,
  ◌==◌, if◌then◌else◌, u32, sub32,
}
use sc_co_si_m.Driver.Machine.{M, return, stop, ◌>>=◌, ◌>>◌}
use sc_co_si_m.User.Kernel.{Kernel}
use sc_co_si_m.User.Access.{access_bram_fw}
use sc_co_si_m.User.Rules.{admin_input_port, admin_output_port}

abbrev pub offset_input_ports_bram4 : ℕ
offset_input_ports_bram4 = 0

abbrev pub offset_output_ports_bram4 : ℕ
offset_output_ports_bram4 = 0xC

abbrev pub user_noc_input_ports : ℕ
user_noc_input_ports = 3

abbrev pub user_noc_output_ports : ℕ
user_noc_output_ports = 3

-- The loop over the groups that grouplist found for the user; `root` is groupIdFromName("root").
unfoldable pub is_admin : ℕ → List ℕ → Bool
is_admin root [] = false
is_admin root (group ∷ groups) = group == root || is_admin root groups

-- -1
abbrev pub minus_one : ℕ
minus_one = 0xFFFFFFFF

-- (int)gid < 0
abbrev pub no_group : ℕ → Bool
no_group gid = leb (2 ^ 31) gid

-- `found` is -1 at the start, and 1 when the row is found.
unfoldable pub port_result : Option ℕ → ℕ
port_result row =
    let found : ℕ = elim row [ none ↦ minus_one | some p ↦ 1 ] in
    let port : ℕ = elim row [ none ↦ admin_input_port | some p ↦ p ] in
    if found == 0 then minus_one else port

module _ {S : Type 0} (kernel : Kernel S) where
  unfoldable pub store_gid : ℕ → ℕ → ℕ → M S (Unit {0})
  store_gid offset port gid = if no_group gid then stop else (do
    r ←
        access_bram_fw kernel 0 admin_input_port admin_output_port (u32 (offset + sub32 port 1 * 4))
          gid
    return tt)

  -- `admin` is what is_admin returns, `gid` is groupIdFromName(group_name).
  unfoldable pub set_gid_per_noc_inport : Bool → ℕ → ℕ → M S (Unit {0})
  unfolding store_gid
  set_gid_per_noc_inport admin gid inport =
      if leb inport 0 || ltb user_noc_input_ports inport
      then stop
      else if admin
      then store_gid offset_input_ports_bram4 inport gid
      else return tt

  -- `outport` is an `int`: here a number, since a negative one is refused as 0 is.
  unfoldable pub set_gid_per_noc_outport : Bool → ℕ → ℕ → M S (Unit {0})
  unfolding store_gid
  set_gid_per_noc_outport admin gid outport =
      if leb outport 0 || ltb user_noc_output_ports outport
      then return tt
      else if admin
      then store_gid offset_output_ports_bram4 outport gid
      else return tt

  -- The loop over the rows from `i` on, `n` of them; the row that has the group, counted from 1.
  unfoldable pub search : ℕ → ℕ → ℕ → ℕ → M S (Option ℕ)
  search offset gid zero i = return none
  search offset gid (suc n) i =
      let rest = search offset gid n (i + 1) in
      do
        word ← access_bram_fw kernel 1 admin_input_port admin_input_port (offset + i * 4) 0
        if gid == word then return (some (i + 1)) else rest

  unfoldable pub get_input_port_for_gid : ℕ → M S ℕ
  get_input_port_for_gid gid = do
    row ← search offset_input_ports_bram4 gid user_noc_input_ports 0
    return (port_result row)

  unfoldable pub get_output_port_for_gid : ℕ → M S ℕ
  get_output_port_for_gid gid = do
    row ← search offset_output_ports_bram4 gid user_noc_output_ports 0
    return (port_result row)
