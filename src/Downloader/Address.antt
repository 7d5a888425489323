-- ===== src/Downloader/Address.antt =====
-- include/aio_uvw.h: `AIO_UVW::addrinfo2IPAddress`, and the connection that a downloader makes to the address.
-- `uv_ip4_name` and `uv_ip6_name` are parameters, `none` being a result that is not 0.
use ecwid_console_downloader.Base.{
  ℕ, ◌≡◌, refl, Bool, true, false, Option, none, some, List, [], ◌∷◌, ◌++◌, append_assoc, ◌>>=◌,
}
use ecwid_console_downloader.Downloader.State.{
  Downloader, Effect, connects, connects6, starts_timer, update_status,
}
use ecwid_console_downloader.Downloader.Net.{
  on_resolve, start_timer, fail_socket_by, connect_to, expect_connect, on_timer_once, port_of,
}

pub data Family : Type 0 where
  inet inet6 : Family
  other : ℕ → Family

-- `addrinfo`, with the bytes of its `ai_addr`.
pub record AddrInfo : Type 0 where
  pub family : Family
  pub addr : List ℕ

record IpAddress : Type 0 where
  ip : List ℕ
  v6 : Bool

-- The buffer's text, or the address made by default.
ip_address : Bool → Option (List ℕ) → IpAddress
ip_address v6 none = record { ip = []; v6 = false }
ip_address v6 (some buf) = record { ip = buf; v6 = v6 }

-- The call that a name leads to, and no name.
unfoldable pub connection_to : Bool → Option (List ℕ) → ℕ → Effect
connection_to v6 none port = connects [] port
connection_to true (some name) port = connects6 name port
connection_to false (some name) port = connects name port

abbrev is_v6 : Family → Bool
is_v6 inet6 = true
is_v6 _ = false

module _ (ip4_name ip6_name : List ℕ → Option (List ℕ)) where
  address_in : Family → List ℕ → IpAddress
  address_in inet addr = ip_address false (ip4_name addr)
  address_in inet6 addr = ip_address true (ip6_name addr)
  address_in (other n) addr = ip_address false none

  -- The result, or the `invalid_argument` thrown for a null pointer.
  addrinfo2ip_address : Option AddrInfo → Option IpAddress
  addrinfo2ip_address none = none
  addrinfo2ip_address (some a) = some (address_in a.family a.addr)

  -- The name of an address in its family: none in another family, or if libuv has none.
  unfoldable pub name_in : Family → List ℕ → Option (List ℕ)
  name_in inet addr = ip4_name addr
  name_in inet6 addr = ip6_name addr
  name_in (other n) addr = none

module _ {P : Type 0} where
  named-connects :
      (v6 : Bool) (name : Option (List ℕ)) (d : Downloader P)
      → (on_resolve (ip_address v6 name).ip (ip_address v6 name).v6 none d).trace
        ≡ d.trace ++ (connection_to v6 name (port_of d.uri_parsed) ∷ starts_timer ∷ [])
  unfolding ip_address on_resolve start_timer fail_socket_by connect_to expect_connect on_timer_once
      update_status connection_to
  named-connects false none d = append_assoc d.trace _ _
  named-connects true none d = append_assoc d.trace _ _
  named-connects false (some name) d = append_assoc d.trace _ _
  named-connects true (some name) d = append_assoc d.trace _ _

module _ {P : Type 0} (ip4_name ip6_name : List ℕ → Option (List ℕ)) where
  -- `on_resolve`, of the addresses that the resolver has found.
  pub on_addr_info : Option AddrInfo → Downloader P → Option (Downloader P)
  on_addr_info found d =
      addrinfo2ip_address ip4_name ip6_name found >>= λ a. some (on_resolve a.ip a.v6 none d)

  family-connects :
      (f : Family) (addr : List ℕ) (d : Downloader P)
      → (on_resolve
          (address_in ip4_name ip6_name f addr).ip
          (address_in ip4_name ip6_name f addr).v6
          none
          d).trace
        ≡ d.trace
          ++ (connection_to (is_v6 f) (name_in ip4_name ip6_name f addr) (port_of d.uri_parsed)
              ∷ starts_timer
              ∷ [])
  unfolding address_in name_in
  family-connects inet addr d = named-connects false (ip4_name addr) d
  family-connects inet6 addr d = named-connects true (ip6_name addr) d
  family-connects (other n) addr d = named-connects false none d

  -- When an address has been found, the downloader makes one call to connect and starts its timer, if the call
  -- does not fail at once: the call is `connect6` exactly if the address is of IPv6 and has a name, it goes to
  -- that name, and to the empty address if the family is another or libuv has no name.
  pub on_addr_info-connects :
      (a : AddrInfo) (d : Downloader P)
      → (e : Downloader P) × (on_addr_info (some a) d ≡ some e)
        × (e.trace
            ≡ d.trace
              ++ (connection_to
                    (is_v6 a.family)
                    (name_in ip4_name ip6_name a.family a.addr)
                    (port_of d.uri_parsed)
                  ∷ starts_timer
                  ∷ []))
  unfolding on_addr_info addrinfo2ip_address
  on_addr_info-connects a d = (_, refl, family-connects a.family a.addr d)
