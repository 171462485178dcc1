-- ===== src/Packet.antt =====
-- stream/trn_strm.c: the header fields of a transport packet, a list of 188 bytes.
use Prim.Native.Nat.{bit_and}
use dvb_vulture.Prelude.{ℕ, ◌+◌, ◌-◌, ◌*◌, ◌/◌, ◌^◌, List, get_or, Bool, ◌==◌}

abbrev pub ts_len : ℕ
ts_len = 188

-- the 16 bit word at offset 1, `ntohs` of it
abbrev pub pid_word : List ℕ → ℕ
pid_word ts = get_or ts 1 0 * 256 + get_or ts 2 0

-- `tsIsStuffing`
pub is_stuffing : List ℕ → Bool
is_stuffing ts = bit_and (pid_word ts) 0x1fff == 0x1fff

-- `tsGetPid`
unfoldable pub get_pid : List ℕ → ℕ
get_pid ts = bit_and (pid_word ts) (1 * 2 ^ 13 - 1)

-- `tsGetAFC`
unfoldable pub get_afc : List ℕ → ℕ
get_afc ts = bit_and (get_or ts 3 0 / 2 ^ 4) 3

-- `tsGetPUSI`
unfoldable pub get_pusi : List ℕ → ℕ
get_pusi ts = bit_and (get_or ts 1 0 / 2 ^ 6) 1
