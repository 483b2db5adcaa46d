-- ===== src/Virtual/Packet.antt =====
-- `simple_async_packet` of library/Async_channel/simple_async_packet.h, the commands and the
-- statuses of async_packet.h, and how the virtual drivers fill the packet and take its times apart.
-- The times that a packet carries are left out: they are only printed.
pub mod Laws
use sc_co_si_m.Prelude.{ℕ, ◌+◌, ◌^◌, ◌%◌, ◌-◌, Bool, leb, ◌==◌, if◌then◌else◌, u32}
use sc_co_si_m.Virtual.Access.{exit_word}

abbrev pub async_ignore : ℕ
async_ignore = 0

abbrev pub async_read : ℕ
async_read = 1

abbrev pub async_write : ℕ
async_write = 2

abbrev pub async_debug_read : ℕ
async_debug_read = 3

abbrev pub async_debug_write : ℕ
async_debug_write = 4

abbrev pub async_exit : ℕ
async_exit = 9

abbrev pub async_incomplete_response : ℕ
async_incomplete_response = 0

abbrev pub async_ok_response : ℕ
async_ok_response = 1

abbrev pub async_address_error_response : ℕ
async_address_error_response = 2

abbrev pub async_generic_error_response : ℕ
async_generic_error_response = 3

-- The field `data` is `word` here.
pub record SimpleAsyncPacket : Type 0 where
  pub id : ℕ
  pub command : ℕ
  pub status : ℕ
  pub address : ℕ
  pub word : ℕ

-- The requests of sc_iowrite32 and sc_ioread32.
unfoldable pub write_request : ℕ → ℕ → ℕ → SimpleAsyncPacket
write_request id word address = record {
  id = id;
  command = if word == exit_word then async_exit else async_write;
  status = async_incomplete_response;
  address = address;
  word = word;
}

-- The request of a read, with what its field `data` holds.
unfoldable pub read_request : ℕ → ℕ → ℕ → SimpleAsyncPacket
read_request id word address = record {
  id = id;
  command = async_read;
  status = async_incomplete_response;
  address = address;
  word = word;
}

-- What sc_ioread32 returns of a response.
unfoldable pub response_word : SimpleAsyncPacket → ℕ
response_word p = if p.status == async_ok_response then p.word else 0xFFFFFFFF

-- id_counter++
abbrev pub next_id : ℕ → ℕ
next_id n = u32 (n + 1)

-- `struct timespec`, with fields of 64 bits in two's complement.
pub record Timespec : Type 0 where
  pub tv_sec : ℕ
  pub tv_nsec : ℕ

abbrev pub sub64 : ℕ → ℕ → ℕ
sub64 a b = (a + 2 ^ 64 - b) % 2 ^ 64

-- n < 0
abbrev pub negative : ℕ → Bool
negative n = leb (2 ^ 63) n

pub diff : Timespec → Timespec → Timespec
diff start end =
    if negative (sub64 end.tv_nsec start.tv_nsec)
    then record {
      tv_sec = sub64 (sub64 end.tv_sec start.tv_sec) 1;
      tv_nsec = sub64 ((1000000000 + end.tv_nsec) % 2 ^ 64) start.tv_nsec;
    }
    else record {
      tv_sec = sub64 end.tv_sec start.tv_sec;
      tv_nsec = sub64 end.tv_nsec start.tv_nsec;
    }
