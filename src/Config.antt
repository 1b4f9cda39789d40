-- ===== src/Config.antt =====
-- src/config.rs: the configuration and its validation. The YAML parser is a third-party package: a
-- configuration is given as the record that it makes. A text is the list of its bytes.
use yuri.Base.{
  ℕ, ◌≤◌, ◌<◌, ◌≡◌, ◌↔◌, refl, arith, Bool, true, false, not, List, [], ◌∷◌, Option, none, some,
  if◌then◌else◌, leb, ◌==◌, ◌&&◌, length,
}
use yuri.Base.Int.{ℤ}

abbrev pub meta_max : ℕ
meta_max = 20

abbrev pub town_max : ℕ
town_max = 255

abbrev pub Text : Type 0
Text = List ℕ

abbrev pub same_text : Text → Text → Bool
same_text [] [] = true
same_text (a ∷ s) (b ∷ t) = a == b && same_text s t
same_text [] (b ∷ t) = false
same_text (a ∷ s) [] = false

pub same_text_refl : (s : Text) → same_text s s ≡ true
same_text_refl [] = refl
same_text_refl (a ∷ s) = ground (arith, same_text_refl s)

pub record Point : Type 0 where
  pub m : ℕ
  pub x : ℕ
  pub y : ℕ

pub record ServerConfig : Type 0 where
  pub sql_ip : Text
  pub sql_port : ℕ
  pub sql_id : Text
  pub sql_pw : Text
  pub sql_db : Text
  pub login_id : Text
  pub login_pw : Text
  pub login_ip : Text
  pub login_port : ℕ
  pub char_id : Text
  pub char_pw : Text
  pub char_ip : Text
  pub char_port : ℕ
  pub map_ip : Text
  pub map_port : ℕ
  pub server_id : ℤ
  pub xor_key : Text
  pub start_point : Point
  pub version : ℤ
  pub deep : ℤ
  pub require_reg : ℤ
  pub save_time : ℤ
  pub xprate : ℤ
  pub droprate : ℤ
  pub meta_files : List Text  -- the field `meta`
  pub town : List Text
  pub data_dir : Text
  pub lua_dir : Text
  pub maps_dir : Text
  pub meta_dir : Text

-- The messages of `ensure!`, in their order.
pub data ConfigError : Type 0 where
  empty_sql_ip empty_sql_id empty_sql_db empty_map_ip empty_char_ip empty_login_ip : ConfigError
  too_many_meta_files too_many_towns xor_key_too_long : (found : ℕ) → ConfigError

abbrev pub is_empty {ℓ} : {A : Type ℓ} → List A → Bool
is_empty [] = true
is_empty (x ∷ xs) = false

-- `ensure!(test, e)`, then the rest. `none` is `Ok(())`.
abbrev pub ensure : Bool → ConfigError → Option ConfigError → Option ConfigError
ensure true e rest = rest
ensure false e rest = some e

unfoldable pub validate : ServerConfig → Option ConfigError
validate c = ensure (not (is_empty c.sql_ip)) empty_sql_ip (
    ensure (not (is_empty c.sql_id)) empty_sql_id (
      ensure (not (is_empty c.sql_db)) empty_sql_db (
        ensure (not (is_empty c.map_ip)) empty_map_ip (
          ensure (not (is_empty c.char_ip)) empty_char_ip (
            ensure (not (is_empty c.login_ip)) empty_login_ip (
              ensure (leb (length c.meta_files) meta_max)
                (too_many_meta_files (length c.meta_files))
                (ensure (leb (length c.town) town_max) (too_many_towns (length c.town)) (
                  if not (is_empty c.xor_key)
                  then ensure (leb (length c.xor_key) 9) (xor_key_too_long (length c.xor_key)) none
                  else none))))))))

-- What the servers rely on.
pub record IsUsable (c : ServerConfig) : Type 0 where
  pub has_sql_ip : 0 < length c.sql_ip
  pub has_sql_id : 0 < length c.sql_id
  pub has_sql_db : 0 < length c.sql_db
  pub has_map_ip : 0 < length c.map_ip
  pub has_char_ip : 0 < length c.char_ip
  pub has_login_ip : 0 < length c.login_ip
  pub meta_fits : length c.meta_files ≤ meta_max
  pub town_fits : length c.town ≤ town_max
  pub key_fits : length c.xor_key ≤ 9

is_empty_len {ℓ} : {A : Type ℓ} (xs : List A) → (is_empty xs ≡ false) ↔ (0 < length xs)
is_empty_len [] = (λ h. cc, λ h. absurd (omega (arith, h)))
is_empty_len (x ∷ xs) = (λ h. omega arith, λ h. refl)

passes : (c : ServerConfig) → validate c ≡ none → IsUsable c
unfolding validate
passes c h = ground (
  arith,
  (is_empty_len c.sql_ip).0,
  (is_empty_len c.sql_id).0,
  (is_empty_len c.sql_db).0,
  (is_empty_len c.map_ip).0,
  (is_empty_len c.char_ip).0,
  (is_empty_len c.login_ip).0,
  (is_empty_len c.xor_key).1,
)

accepted : (c : ServerConfig) → IsUsable c → validate c ≡ none
unfolding validate
accepted c u =
    rw
      (
        (is_empty_len c.sql_ip).1 u.has_sql_ip,
        (is_empty_len c.sql_id).1 u.has_sql_id,
        (is_empty_len c.sql_db).1 u.has_sql_db,
        (is_empty_len c.map_ip).1 u.has_map_ip,
        (is_empty_len c.char_ip).1 u.has_char_ip,
        (is_empty_len c.login_ip).1 u.has_login_ip,
      )
      (ground arith)

-- The validation passes exactly the configurations in which the six addresses and names are not
-- empty, there are at most 20 meta files and 255 towns, and the key has at most 9 bytes.
pub validate-IsUsable : (c : ServerConfig) → (validate c ≡ none) ↔ IsUsable c
unfolding validate
validate-IsUsable c = (λ h. passes c h, λ u. accepted c u)
