-- ===== src/Memcached/Addresses.antt =====
-- rbatis-cache-memcached/src/inet_socket_address_list_property_setter.rs: lists of servers as text.
pub mod Laws
use rbatis_cache.Common.{
  ℕ, Option, none, some, List, [], ◌∷◌, ◌++◌, Text, ascii, decimal, parse_uint,
}
use rbatis_cache.Properties.{trim, split, split_once, split_whitespace}

abbrev pub u16_max : ℕ
u16_max = 65535

abbrev with_port : Text → Option ℕ → Option (Text × ℕ)
with_port host none = none
with_port host (some port) = some (host, port)

abbrev pub host_port : Option (Text × Text) → Option (Text × ℕ)
host_port none = none
host_port (some (host, port)) = with_port host (parse_uint u16_max port)

-- The closures of both `filter_map`s: a host, a colon and a port.
unfoldable pub address : Text → Option (Text × ℕ)
address token = host_port (split_once 58 token)

-- A token that is no address is left out.
abbrev pub keep_address : Option (Text × ℕ) → List (Text × ℕ) → List (Text × ℕ)
keep_address none list = list
keep_address (some a) list = a ∷ list

abbrev pub addresses : List Text → List (Text × ℕ)
addresses [] = []
addresses (token ∷ tokens) = keep_address (address token) (addresses tokens)

abbrev pub trimmed_addresses : List Text → List (Text × ℕ)
trimmed_addresses [] = []
trimmed_addresses (token ∷ tokens) = keep_address (address (trim token)) (trimmed_addresses tokens)

unfoldable pub show_address : Text × ℕ → Text
show_address (host, port) = host ++ (ascii ":" ++ decimal port)

-- Display for AddressList
unfoldable pub show_addresses : List (Text × ℕ) → Text
unfolding show_address
show_addresses [] = []
show_addresses (first ∷ []) = show_address first
show_addresses (first ∷ second ∷ list) =
    show_address first ++ (ascii "," ++ show_addresses (second ∷ list))

-- FromStr for AddressList
unfoldable pub read_addresses : Text → List (Text × ℕ)
read_addresses input = trimmed_addresses (split 44 input)

unfoldable pub parse_address_list : Text → List (Text × ℕ)
parse_address_list input = addresses (split_whitespace input)
