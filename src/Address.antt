-- ===== src/Address.antt =====
-- src/kb/net/network_types.cpp and network_types.h: ip_address_t; network_utils.cpp.
use Prim.Native.String.{String}
use text.Mathlib.Text.{◌==◌ as str_eq}
use kb_networking_cpp.Prelude.{ℕ, Bool, false, [], ◌∷◌, if◌then◌else◌, is_some, ◌≡◌, length, arith}
use kb_networking_cpp.Packet.Bytes.{Bytes, write_bytes}
use kb_networking_cpp.Serde.Fill.{write_bytes_all}
use kb_networking_cpp.Steam.{Steam}

-- The union of m_ipv6 and m_ipv4 is its sixteen bytes.
pub record IpAddress : Type 0 where
  pub bytes : Bytes
  pub port : ℕ

-- ip_address_t{}
abbrev pub empty_address : IpAddress
empty_address = record {
  bytes = 0 ∷ 0 ∷ 0 ∷ 0 ∷ 0 ∷ 0 ∷ 0 ∷ 0 ∷ 0 ∷ 0 ∷ 0 ∷ 0 ∷ 0 ∷ 0 ∷ 0 ∷ 0 ∷ [];
  port = 0;
}

module _ (steam : Steam) where
  unfoldable pub copy_steam_to_ip_address : IpAddress → steam.Addr → IpAddress
  unfolding write_bytes
  copy_steam_to_ip_address p_kb_addr p_steam_addr =
      let with_port = record p_kb_addr { port = steam.addr_port p_steam_addr } in
      if steam.is_ipv4 p_steam_addr
      then record with_port { bytes = write_bytes with_port.bytes 0 (steam.addr_ipv4 p_steam_addr) }
      else record with_port { bytes = write_bytes with_port.bytes 0 (steam.addr_ipv6 p_steam_addr) }

  -- The converting constructor, and operator= on an address that holds another.
  unfoldable pub ip_address_of : steam.Addr → IpAddress
  unfolding copy_steam_to_ip_address
  ip_address_of p_addr =
      copy_steam_to_ip_address (record empty_address { port = steam.addr_port p_addr }) p_addr

  unfoldable pub assign_address : IpAddress → steam.Addr → IpAddress
  unfolding copy_steam_to_ip_address
  assign_address address p_addr = copy_steam_to_ip_address address p_addr

  unfoldable pub is_valid_ip_address : String → Bool
  is_valid_ip_address p_ip_address =
      if str_eq p_ip_address "" then false else is_some (steam.parse_string p_ip_address)

module _ (steam : Steam) (a : steam.Addr) where
  -- Both views of the address are the same sixteen bytes of a union.
  module _ (same : steam.addr_ipv4 a ≡ steam.addr_ipv6 a)
      (sixteen : length (steam.addr_ipv6 a) ≡ 16) where
    -- Assigning an address whose two views are the same sixteen bytes to an address of sixteen
    -- bytes replaces all bytes and the port, whichever kind either address is.
    pub assign_address_overwrites :
        (old : IpAddress)
        → length old.bytes ≡ 16
        → assign_address steam old a
          ≡ record { bytes = steam.addr_ipv6 a; port = steam.addr_port a }
    unfolding assign_address
    assign_address_overwrites old h = ground (arith, write_bytes_all old.bytes (steam.addr_ipv6 a))
