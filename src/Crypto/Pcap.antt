-- ===== src/Crypto/Pcap.antt =====
-- pcap.go: the payloads of captured packets.
use qotp.Base.{ℕ, suc, ◌^◌, ◌≤◌, ◌<◌, ◌≡◌, ◌⊎◌, Bool, not, some, List, Run, ok, ◌>>=◌, length}
use qotp.Crypto.Library.{CryptoLib, Suite}
use qotp.Crypto.Messages.{
  encrypt_data, decrypt_data, decrypt_init_rcv, decrypt_init_crypto_snd, decrypt_init_crypto_rcv,
}
use qotp.Crypto.RoundTrip.Packets.{encrypt_data_lem, decrypt_data_lem}

-- The packet is a list, `spare` what its slice has room for behind it.
module _ (c : CryptoLib) where
  unfoldable pub decrypt_data_for_pcap : List ℕ → List ℕ → Bool → ℕ → List ℕ → Run (List ℕ)
  decrypt_data_for_pcap enc_data spare is_sender_on_init epoch shared_secret = do
    msg ← decrypt_data c enc_data spare is_sender_on_init epoch shared_secret
    ok msg.payload_raw

  unfoldable pub decrypt_init_crypto_snd_for_pcap : List ℕ → List ℕ → List ℕ → ℕ → Run (List ℕ)
  decrypt_init_crypto_snd_for_pcap enc_data spare prv_key_id_rcv mtu = do
    (id_snd, ep_snd, msg) ← decrypt_init_crypto_snd c enc_data spare prv_key_id_rcv mtu
    ok msg.payload_raw

  unfoldable pub decrypt_init_rcv_for_pcap : List ℕ → List ℕ → List ℕ → Run (List ℕ)
  decrypt_init_rcv_for_pcap enc_data spare prv_key_ep_snd = do
    (secret, id_rcv, ep_rcv, msg) ← decrypt_init_rcv c enc_data spare prv_key_ep_snd
    ok msg.payload_raw

  unfoldable pub decrypt_init_crypto_rcv_for_pcap : List ℕ → List ℕ → List ℕ → Run (List ℕ)
  decrypt_init_crypto_rcv_for_pcap enc_data spare prv_key_ep_snd = do
    (secret, ep_rcv, msg) ← decrypt_init_crypto_rcv c enc_data spare prv_key_ep_snd
    ok msg.payload_raw

  -- From a captured data packet that one side encrypted, whoever has the secret reads the text, in
  -- the role of the other side and with an epoch at most one away.
  pub decrypt_data_for_pcap-encrypt_data :
      (secret : List ℕ) (suite : Suite c secret) (conn_id sn epoch r : ℕ)
      (is_sender receiver : Bool)
      → (text spare : List ℕ) → not receiver ≡ is_sender
      → sn < 2 ^ 48
      → epoch < 2 ^ 48
      → (r ≡ epoch) ⊎ (r ≡ suc epoch) ⊎ (suc r ≡ epoch)
      → 8 ≤ length text
      → encrypt_data c conn_id is_sender (some secret) sn epoch text
          >>= (λ enc. decrypt_data_for_pcap enc spare receiver r secret)
        ≡ ok text
  unfolding decrypt_data_for_pcap
  decrypt_data_for_pcap-encrypt_data secret suite conn_id sn epoch r is_sender receiver text spare
        roles sn_small epoch_small near long =
      rw (
        encrypt_data_lem c secret suite conn_id sn epoch is_sender text long,
        decrypt_data_lem c secret suite conn_id sn epoch r is_sender receiver text spare roles
            sn_small epoch_small near long,
      )
