-- ===== src/Virtual/Tcp.antt =====
-- sc_kernel_mode_tcp.h: the virtual driver over a TCP connection per access.
pub mod Laws
pub mod Stream
use sc_co_si_m.Prelude.{
  ℕ, Bool, true, false, Option, none, some, List, [], ◌++◌, length, ◌==◌, if◌then◌else◌,
}
use sc_co_si_m.Driver.Machine.{M, return, stop, ◌>>=◌, ◌>>◌}
use sc_co_si_m.Driver.Rules.{FwDs}
use sc_co_si_m.Driver.Packets.{AccessDs}
use sc_co_si_m.Driver.Bram.{DirectAccessDs, Code}
use sc_co_si_m.Driver.Stats.{StatDs}
use sc_co_si_m.Virtual.Access.{Access}
use sc_co_si_m.Virtual.Packet.{
  SimpleAsyncPacket, write_request, read_request, response_word, next_id,
}
use sc_co_si_m.Virtual.Tcp.Stream.{collect, overlay}
use sc_co_si_m.Virtual.Calls

-- What send_data calls, and how the packet's structure is laid out in `size` bytes. `connect` is
-- `none` where socket or connect fails; `talk` sends bytes to the server, and gives the pieces that
-- the calls of recv return until the server closes the connection.
pub record Network (W : Type 0) : Type 0 where
  pub connect : W → Option W
  pub talk : List ℕ → W → List (List ℕ) × W
  pub size : ℕ
  pub bytes : SimpleAsyncPacket → List ℕ
  pub packet : List ℕ → SimpleAsyncPacket

-- The process: module_initialized, m_shptr, id_counter.
pub record TcpClient (W : Type 0) : Type 0 where
  pub module_initialized : Bool
  pub m_shptr : SimpleAsyncPacket
  pub id_counter : ℕ
  pub world : W

module _ {W : Type 0} (net : Network W) where
  -- `none` where the result is -1.
  unfoldable pub send_data : SimpleAsyncPacket → W → Option (SimpleAsyncPacket × W)
  send_data p w = elim (net.connect w) [
    | none ↦ none
    | some open_w ↦
        let (pieces, closed_w) = net.talk (net.bytes p) open_w in
        some (net.packet (overlay (collect net.size [] pieces) (net.bytes p)), closed_w)
  ]

  -- The exit word ends the call only after the exchange.
  unfoldable pub sc_iowrite32 : ℕ → ℕ → M (TcpClient W) (Unit {0})
  sc_iowrite32 word address c = elim (send_data (write_request c.id_counter word address) c.world) [
    | none ↦ stop c
    | some (p, w) ↦
        return tt (record c { m_shptr = p; id_counter = next_id c.id_counter; world = w })
  ]

  unfoldable pub sc_ioread32 : ℕ → M (TcpClient W) ℕ
  sc_ioread32 address c = elim (send_data (read_request c.id_counter 0 address) c.world) [
    | none ↦ stop c
    | some (p, w) ↦
        return (response_word p)
          (record c { m_shptr = p; id_counter = next_id c.id_counter; world = w })
  ]

  -- The server's address is set.
  unfoldable pub init_virtual_kernel : M (TcpClient W) (Unit {0})
  init_virtual_kernel c = return tt (record c { module_initialized = true })

  -- if (module_initialized < 1) init_virtual_kernel()
  unfoldable pub ensure_initialized : M (TcpClient W) (Unit {0})
  ensure_initialized c = if c.module_initialized then return tt c else init_virtual_kernel c

  unfoldable pub access : Access (TcpClient W)
  access = record {
    sc_iowrite32 = sc_iowrite32;
    sc_ioread32 = sc_ioread32;
    init_virtual_kernel = ensure_initialized;
    restart_ids = λ c. return tt (record c { id_counter = 1 });
  }

  pub sc_setup_fw : FwDs → M (TcpClient W) (Unit {0})
  sc_setup_fw = Calls.sc_setup_fw access

  pub sc_access_bram_fw : ℕ → AccessDs → M (TcpClient W) AccessDs
  sc_access_bram_fw = Calls.sc_access_bram_fw access

  pub sc_access_bram : DirectAccessDs → M (TcpClient W) (Code × DirectAccessDs)
  sc_access_bram = Calls.sc_access_bram access

  pub sc_read_stats_per_port : StatDs → M (TcpClient W) StatDs
  sc_read_stats_per_port r = do ensure_initialized; Calls.sc_read_stats_per_port access r
