-- ===== src/ClientIp.antt =====
-- internal/httpapi/ratelimit.go: clientIP, the address under which a request is limited.
pub mod Forged
mod Tests
use Prim.Native.Char.{Char, code}
use cubesync.Prelude.{
  ℕ, String, Bool, true, false, Option, none, some, List, [], ◌∷◌, ◌++◌, ◌==◌, if◌then◌else◌, any,
  str_eq,
}

-- net.SplitHostPort, netip.ParseAddr, and Unmap, String and Contains of net/netip; strings.TrimSpace.
pub record Net : Type 0 where
  pub split_host_port : String → Option String
  pub parse_addr : String → Option ℕ
  pub unmap : ℕ → ℕ
  pub addr_text : ℕ → String
  pub contains : ℕ → ℕ → Bool
  pub trim_space : String → String

pub record HttpRequest : Type 0 where
  pub remote_addr : String
  pub x_forwarded_for : String
  pub x_real_ip : String

-- strings.Split at the commas
abbrev pub prepend_char : Char → List String → List String
prepend_char c [] = String.◌∷◌ c "" ∷ []
prepend_char c (p ∷ ps) = String.◌∷◌ c p ∷ ps

abbrev pub split_commas : String → List String
split_commas String.[] = "" ∷ []
split_commas (String.◌∷◌ c s) =
    let rest = split_commas s in if code c == 44 then "" ∷ rest else prepend_char c rest

abbrev pub from_right : List String → List String
from_right [] = []
from_right (p ∷ ps) = from_right ps ++ p ∷ []

module _ (net : Net) (trusted_proxies : List ℕ) where
  unfoldable pub is_trusted_proxy : ℕ → Bool
  is_trusted_proxy addr = any (λ prefix. net.contains prefix addr) trusted_proxies

  -- The first hop that is not a trusted proxy; `none` is the peer, for a malformed hop too.
  abbrev pub hop : Option ℕ → Option String → Option String
  hop none rest = none
  hop (some addr) rest =
      if is_trusted_proxy (net.unmap addr) then rest else some (net.addr_text (net.unmap addr))

  unfoldable pub walk : List String → Option String
  walk [] = none
  walk (p ∷ ps) = hop (net.parse_addr (net.trim_space p)) (walk ps)

  abbrev pub or_peer : ℕ → Option String → String
  or_peer peer none = net.addr_text peer
  or_peer peer (some t) = t

  abbrev pub real_ip : ℕ → Option ℕ → String
  real_ip peer none = net.addr_text peer
  real_ip peer (some addr) = net.addr_text (net.unmap addr)

  unfoldable pub of_peer : HttpRequest → ℕ → String
  unfolding is_trusted_proxy walk
  of_peer r peer =
      if is_trusted_proxy peer
      then (if str_eq r.x_forwarded_for ""
          then real_ip peer (net.parse_addr (net.trim_space r.x_real_ip))
          else or_peer peer (walk (from_right (split_commas r.x_forwarded_for))))
      else net.addr_text peer

  abbrev pub host_or : String → Option String → String
  host_or addr none = addr
  host_or addr (some host) = host

  abbrev pub of_host : HttpRequest → String → Option ℕ → String
  of_host r host none = host
  of_host r host (some peer) = of_peer r (net.unmap peer)

  unfoldable pub client_ip : HttpRequest → String
  unfolding of_peer
  client_ip r =
      let host = host_or r.remote_addr (net.split_host_port r.remote_addr) in
      of_host r host (net.parse_addr host)
