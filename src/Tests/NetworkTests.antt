-- ===== src/Tests/NetworkTests.antt =====
-- src/network on concrete inputs.
use yuri.Base.{ℕ, ◌≡◌, refl, List, [], ◌∷◌, some, none, true, false, arith}
use yuri.Network.Acl.{parse_ipmask, codes}
use yuri.Network.Address.{show, show_ipv4, parse_ipmask-prefix}
use yuri.Network.Crypt.{
  tk_crypt_dynamic, crypt_loop, crypt_byte, pad_key, length_field, generate_key2, is_key_client,
  is_key_server,
}
use yuri.Network.Cipher.{tk_crypt_dynamic_twice}
use yuri.Network.Trailer.{generate_key2-tk_crypt_dynamic}

-- As `cidr_prefix`.
cidr_prefix :
    parse_ipmask (codes "192.168.1.0/24") ≡ some (record { ip = 0x01A8C0; mask = 0xFFFFFF })
unfolding parse_ipmask
cidr_prefix = refl

-- As `invalid_inputs`.
invalid_inputs :
    (parse_ipmask (codes "") ≡ none)
    × (parse_ipmask (codes "999.0.0.1") ≡ none)
    × (parse_ipmask (codes "1.2.3.4/33") ≡ none)
    × (parse_ipmask (codes "not-an-ip") ≡ none)
unfolding parse_ipmask
invalid_inputs = (refl, refl, refl, refl)

-- As `test_is_key_server` and `test_is_key_client`.
key_lists :
    (is_key_server 2 ≡ false)
    × (is_key_server 99 ≡ true)
    × (is_key_client 2 ≡ false)
    × (is_key_client 99 ≡ true)
unfolding is_key_server is_key_client
key_lists = (refl, refl, refl, refl)

parse_ipmask-prefix_example :
    parse_ipmask (codes "10.0.0.0/24") ≡ some (record { ip = 10; mask = 0xFFFFFF })
unfolding show show_ipv4
parse_ipmask-prefix_example =
    parse_ipmask-prefix 10 0 0 0 (omega arith) (omega arith) (omega arith) (omega arith) 24
      (omega arith)

abbrev small_packet : List ℕ
small_packet = 0xAA ∷ 0 ∷ 7 ∷ 2 ∷ 1 ∷ 65 ∷ 66 ∷ 9 ∷ 9 ∷ 9 ∷ []

abbrev small_key : List ℕ
small_key = 1 ∷ 2 ∷ 3 ∷ []

-- Two bytes of data are ciphered.
ciphered : tk_crypt_dynamic small_packet small_key ≡ 0xAA ∷ 0 ∷ 7 ∷ 2 ∷ 1 ∷ 65 ∷ 65 ∷ 9 ∷ 9 ∷ 9 ∷ []
unfolding tk_crypt_dynamic crypt_loop crypt_byte pad_key
ciphered = refl

tk_crypt_dynamic_twice_example :
    tk_crypt_dynamic (tk_crypt_dynamic small_packet small_key) small_key ≡ small_packet
tk_crypt_dynamic_twice_example = tk_crypt_dynamic_twice small_packet small_key

generate_key2-tk_crypt_dynamic_example :
    generate_key2 (tk_crypt_dynamic small_packet small_key) [] true
    ≡ generate_key2 small_packet [] true
generate_key2-tk_crypt_dynamic_example =
    generate_key2-tk_crypt_dynamic small_packet small_key [] true 7 (unfold length_field in refl)
      (omega arith)

-- Four bytes of payload and room for the trailer.
abbrev open_packet : List ℕ
open_packet = 0xAA ∷ 0 ∷ 4 ∷ 2 ∷ 1 ∷ 65 ∷ 66 ∷ 0 ∷ 0 ∷ 0 ∷ []
