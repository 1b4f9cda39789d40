-- ===== src/Chars/Announced.antt =====
-- The list of a map server's maps, from `handle_accept` to `handle_mapset`.
use yuri.Base.{
  ℕ, ◌+◌, ◌-◌, ◌*◌, ◌/◌, ◌%◌, ◌^◌, ◌≤◌, ◌<◌, ◌≡◌, refl, ap, ap₂, ◌∙◌, false, List, [], ◌∷◌, ◌++◌,
  some, arith, ltb, ◌==◌, length, drop, set, get_elem?, get_or, u16, All, length-append,
  take-append_self, drop-append_self,
}
use yuri.Base.Buffers.{le16, le32, le32_value}
use yuri.Chars.Link.{received}
use yuri.Chars.Logins.{CharState, MapFifo}
use yuri.Chars.Maps.{
  max_pkt_len, finish, variable_round, table_len, map_round, read_maps, handle_mapset,
}
use yuri.MapServer.{le16s, handle_accept}

length-le16s : (ids : List ℕ) → length (le16s ids) ≡ 2 * length ids
length-le16s [] = refl
length-le16s (id ∷ ids) = omega (arith, length-le16s ids)

-- Bytes are read back as the ids.
read_maps-le16s :
    (ids : List ℕ) → All (λ id. id < 2 ^ 16) ids → read_maps (length ids) (le16s ids) ≡ ids
unfolding read_maps
read_maps-le16s [] small = refl
read_maps-le16s (id ∷ ids) small = ap₂ ◌∷◌ (omega (arith, small.0)) (read_maps-le16s ids small.1)

finish_exact :
    (head body rest : List ℕ) (n : ℕ)
    → n ≡ length body
    → finish head n (body ++ rest) ≡ received (head ++ body) rest
unfolding finish
finish_exact head body rest n e =
    let enough : ltb (length (body ++ rest)) (length body) ≡ false =
      ground (arith, length-append body rest) in
    rw e (
      rw
        (
          finish,
          enough,
          take-append_self (length body) body rest refl,
          drop-append_self (length body) body rest refl,
        )
        refl)

-- A packet that says how long it is comes off the stream whole.
variable_exact :
    (b0 b1 n : ℕ) (body rest : List ℕ)
    → n ≡ length body + 6
    → n ≤ max_pkt_len
    → variable_round b0 b1 (le32 n ++ (body ++ rest)) ≡ received ((b0 ∷ b1 ∷ le32 n) ++ body) rest
unfolding variable_round
variable_exact b0 b1 n body rest e small =
    let some_len : (n == 0) ≡ false = ground (arith, e) in
    let within : ltb max_pkt_len n ≡ false = ground (arith, small) in
    rw (variable_round, le32_value n (omega (arith, small)))
      (rw (some_len, within) (finish_exact (b0 ∷ b1 ∷ le32 n) body rest (n - 6) (omega (arith, e))))

module _ (ids : List ℕ) (few : length ids < 2 ^ 16) where
  -- The packet of `handle_accept`.
  abbrev listing : List ℕ
  listing =
      (0x01 ∷ 0x30 ∷ [])
      ++ (le32 (8 + u16 (length ids) * 2) ++ (le16 (u16 (length ids)) ++ le16s ids))

  map_round-listing : (rest : List ℕ) → map_round (listing ++ rest) ≡ received listing rest
  unfolding map_round table_len
  map_round-listing rest =
      variable_exact 0x01 0x30 (8 + u16 (length ids) * 2) (le16 (u16 (length ids)) ++ le16s ids)
        rest (omega (arith, few, length-le16s ids)) (omega (arith, few))

  handle_mapset-listing :
      (state : CharState) (idx : ℕ) (s : MapFifo)
      → get_elem? state.map_servers idx ≡ some (some s)
      → All (λ id. id < 2 ^ 16) ids
      → handle_mapset state idx listing ≡ (
        record state { map_servers = set state.map_servers idx (some (record s { maps = ids })) },
        [],
      )
  unfolding handle_mapset
  handle_mapset-listing state idx s there small =
      let long : ltb (length listing) 8 ≡ false = ground arith in
      let count : (u16 (length ids) % 2 ^ 8 + u16 (length ids) / 2 ^ 8 % 2 ^ 8 * 2 ^ 8)
          ≡ length ids =
        omega (arith, few) in
      let read : read_maps (get_or listing 6 0 + get_or listing 7 0 * 2 ^ 8) (drop 8 listing)
          ≡ ids =
        ap (λ n. read_maps n (le16s ids)) count ∙ read_maps-le16s ids small in
      rw (handle_mapset, long)
        (rw there (
          ap
            (λ maps. (
              record state {
                map_servers = set state.map_servers idx (some (record s { maps = maps }));
              },
              [],
            ))
            read))

-- The maps that an accepted map server lists come off its stream in one packet, and the character server
-- then holds exactly these for the slot of that server. There are fewer than 2 ^ 16 maps, with ids below
-- 2 ^ 16, and the slot is in use.
pub handle_accept-handle_mapset :
    (ids pkt rest : List ℕ) (state : CharState) (idx : ℕ) (s : MapFifo)
    → length ids < 2 ^ 16
    → All (λ id. id < 2 ^ 16) ids
    → 4 ≤ length pkt
    → get_or pkt 2 0 ≡ 0
    → get_elem? state.map_servers idx ≡ some (some s)
    → (m : List ℕ) × (handle_accept ids pkt ≡ some m)
      × (map_round (m ++ rest) ≡ received m rest)
      × (handle_mapset state idx m ≡ (
        record state { map_servers = set state.map_servers idx (some (record s { maps = ids })) },
        [],
      ))
unfolding handle_accept
handle_accept-handle_mapset ids pkt rest state idx s few small long accepted there =
    let long' : ltb (length pkt) 4 ≡ false = ground (arith, long) in
    (
      listing ids few,
      rw (handle_accept, long') (rw accepted refl),
      map_round-listing ids few rest,
      handle_mapset-listing ids few state idx s there small,
    )
