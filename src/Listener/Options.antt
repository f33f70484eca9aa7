-- ===== src/Listener/Options.antt =====
-- The options of listener.go, and `fillListenOpts`. What the standard library does with them is a
-- parameter: keys, the hash, hexadecimal digits, addresses and sockets, where `none` is an error.
use qotp.Base.{
  ℕ, Bool, false, not, Option, none, some, List, [], ◌∷◌, Run, ok, panic, ◌>>=◌, ◌>>◌, guard, need,
  Error, if◌then◌else◌, ◌==◌, length, is_some,
}

pub record System : Type 1 where
  -- a `NetworkConn`, and a `net.UDPAddr`
  pub Socket : Type 0
  pub Addr : Type 0
  -- `X25519().NewPrivateKey` and `GenerateKey(rand.Reader)`
  pub new_private_key : List ℕ → Option (List ℕ)
  pub generated_key : Option (List ℕ)
  pub sha256 : List ℕ → List ℕ
  -- `hex.DecodeString`: the bytes before the first error, and whether there is one
  pub hex_decode : List ℕ → List ℕ × Bool
  pub resolve_udp_addr : List ℕ → Option Addr
  -- `net.ListenUDP` on an address or nil, and `setDontFragment`
  pub listen_udp : Option Addr → Option Socket
  pub set_dont_fragment : Socket → Bool

module _ (os : System) where
  pub record ListenOption : Type 0 where
    pub seed : Option (List ℕ)
    pub prv_key_id : Option (List ℕ)
    pub local_conn : Option os.Socket
    pub listen_addr : Option os.Addr
    pub mtu : ℕ
    pub has_key_log : Bool

  -- A `ListenFunc`.
  abbrev pub ListenFunc : Type 0
  ListenFunc = ListenOption → Run ListenOption

  unfoldable pub with_mtu : ℕ → ListenFunc
  with_mtu mtu o = do guard (o.mtu == 0) Error.already_set; ok (record o { mtu = mtu })

  unfoldable pub with_key_log_writer : Bool → ListenFunc
  with_key_log_writer is_set o = ok (record o { has_key_log = is_set })

  unfoldable pub with_seed : List ℕ → ListenFunc
  with_seed seed o = do
    guard (not (is_some o.seed)) Error.already_set
    ok (record o { seed = some seed })

  unfoldable pub with_network_conn : Option os.Socket → ListenFunc
  with_network_conn local_conn o = ok (record o { local_conn = local_conn })

  unfoldable pub with_prv_key_id : Option (List ℕ) → ListenFunc
  with_prv_key_id prv_key_id o = do
    guard (not (is_some o.prv_key_id)) Error.already_set
    guard (is_some prv_key_id) Error.not_set
    ok (record o { prv_key_id = prv_key_id })

  -- `decodeHex`: without a prefix `0x`, which is the bytes 48 and 120.
  unfoldable pub without_prefix : List ℕ → List ℕ
  without_prefix [] = []
  without_prefix (a ∷ []) = a ∷ []
  without_prefix (a ∷ b ∷ rest) =
      if a == 48 then if b == 120 then rest else a ∷ b ∷ rest else a ∷ b ∷ rest

  abbrev pub decode_hex : List ℕ → List ℕ × Bool
  decode_hex digits = os.hex_decode (without_prefix digits)

  abbrev pub copy_seed : Option (List ℕ) → List ℕ → ListenFunc
  copy_seed none seed o = panic
  copy_seed (some old) seed o = ok (record o { seed = some seed })

  -- `copy(o.seed[:], seed)` slices a nil pointer to an array, as the seed is not set there.
  unfoldable pub with_seed_str_hex : List ℕ → ListenFunc
  with_seed_str_hex digits o = do
    guard (not (is_some o.seed)) Error.already_set
    guard (length (decode_hex digits).0 == 32) Error.seed_size
    guard (not (decode_hex digits).1) Error.hex_refused
    copy_seed o.seed (decode_hex digits).0 o

  unfoldable pub with_seed_str : List ℕ → ListenFunc
  with_seed_str seed_str o = do
    guard (not (is_some o.seed)) Error.already_set
    ok (record o { seed = some (os.sha256 seed_str) })

  unfoldable pub with_listen_addr : List ℕ → ListenFunc
  with_listen_addr addr o = do
    guard (not (is_some o.listen_addr)) Error.already_set
    listen_addr ← need Error.address_refused (os.resolve_udp_addr addr)
    ok (record o { listen_addr = some listen_addr })

  abbrev pub no_options : ListenOption
  no_options = record {
    seed = none;
    prv_key_id = none;
    local_conn = none;
    listen_addr = none;
    mtu = 0;
    has_key_log = false;
  }

  -- The options in their order.
  unfoldable pub apply_options : List ListenFunc → ListenFunc
  apply_options [] o = ok o
  apply_options (opt ∷ rest) o = opt o >>= apply_options rest

  abbrev fill_seed : Option (List ℕ) → ListenFunc
  fill_seed none o = ok o
  fill_seed (some seed) o = do
    prv_key_id ← need Error.key_refused (os.new_private_key seed)
    ok (record o { prv_key_id = some prv_key_id })

  abbrev fill_key : Option (List ℕ) → ListenFunc
  fill_key (some prv_key_id) o = ok o
  fill_key none o = do
    prv_key_id ← need Error.key_not_generated os.generated_key
    ok (record o { prv_key_id = some prv_key_id })

  abbrev fill_conn : Option os.Socket → ListenFunc
  fill_conn (some local_conn) o = ok o
  fill_conn none o = do
    conn ← need Error.socket_refused (os.listen_udp o.listen_addr)
    guard (os.set_dont_fragment conn) Error.socket_refused
    ok (record o { local_conn = some conn })

  abbrev default_mtu : ListenOption → ListenOption
  default_mtu o = record o { mtu = if o.mtu == 0 then 1400 else o.mtu }

  unfoldable pub fill_listen_opts : List ListenFunc → Run ListenOption
  fill_listen_opts options = do
    o ← apply_options options no_options
    let o = default_mtu o
    o ← fill_seed o.seed o
    o ← fill_key o.prv_key_id o
    fill_conn o.local_conn o
