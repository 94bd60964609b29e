-- ===== src/ClientIp/Tests.antt =====
-- An example: a client behind one trusted proxy that sends a header of its own.
use cubesync.Prelude.{ℕ, ◌≡◌, refl, String, some, [], ◌∷◌, ◌==◌, byte_len, if◌then◌else◌}
use cubesync.ClientIp.{Net, is_trusted_proxy, walk, client_ip}
use cubesync.ClientIp.Forged.{client_ip-forged}

-- A text is an address by its length; "proxy" is 5, "client" is 6.
abbrev text_of : ℕ → String
text_of n = if n == 5 then "proxy" else if n == 6 then "client" else "other"

abbrev net : Net
net = record {
  split_host_port = some;
  parse_addr = λ t. some (byte_len t);
  unmap = λ n. n;
  addr_text = text_of;
  contains = λ prefix addr. prefix == addr;
  trim_space = λ t. t;
}

client_ip-forged_example :
    client_ip net
      (5 ∷ [])
      (record { remote_addr = "proxy"; x_forwarded_for = "forged,client"; x_real_ip = "" })
    ≡ "client"
unfolding is_trusted_proxy walk
client_ip-forged_example =
    client_ip-forged net (5 ∷ []) "forged" "client" "" "proxy" 5 "client" refl refl
