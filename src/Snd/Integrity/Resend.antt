-- ===== src/Snd/Integrity/Resend.antt =====
-- `ReadyToRetransmit`: the map of packets in flight where the oldest one is split.
use qotp.Base.{
  ℕ, ◌+◌, ◌-◌, ◌^◌, ◌<◌, ◌≡◌, ◌≢◌, sym, ap, ◌∙◌, none, List, ◌∷◌, if◌then◌else◌, ◌==◌, length,
  arith, All, inl, inr, ==_ne,
}
use qotp.Entries
use qotp.Entries.{Entries}
use qotp.Entries.Laws
use qotp.Snd.{SendInfo, create_packet_key, key_offset, key_length}
use qotp.Snd.Integrity.{InFlight, Apart, Separate, All-map, Separate-put}
use qotp.Snd.Integrity.Steps.{get-apart}

-- The oldest packet, `key` with `info`, is split at `max`, below its length.
module _ (key max : ℕ) (info left_info right_info : SendInfo) (rest : Entries SendInfo)
    (len : key_length key ≡ length info.payload)
    (off : key_offset key + length info.payload < 2 ^ 48) (short : max < length info.payload)
    (apart : All (λ e. Apart key e.0) rest) where
  abbrev left_key : ℕ
  left_key = create_packet_key (key_offset key) max

  abbrev right_key : ℕ
  right_key = create_packet_key (key_offset key + max) (length info.payload - max)

  left_fields : (key_offset left_key ≡ key_offset key) × (key_length left_key ≡ max)
  unfolding key_offset key_length create_packet_key
  left_fields = omega arith

  right_fields :
      (key_offset right_key ≡ key_offset key + max)
      × (key_length right_key ≡ length info.payload - max)
  unfolding key_offset key_length create_packet_key
  right_fields = omega arith

  key-ne-left : key ≢ left_key
  key-ne-left e = omega (arith, ap key_length e, left_fields.1)

  left-ne-right : left_key ≢ right_key
  left-ne-right e = omega (arith, ap key_length e, ap key_offset e, left_fields, right_fields)

  rest-ne-right : All (λ e. e.0 ≢ right_key) rest
  rest-ne-right =
      All-map rest (λ e a q. omega (arith, a, ap key_length q, ap key_offset q, right_fields)) apart

  -- The map after the two writes, and after `Replace`.
  abbrev with_left : Entries SendInfo
  with_left = Entries.put left_key left_info ((key, info) ∷ rest)

  abbrev changed : Entries SendInfo
  changed = if left_key == key then with_left else Entries.put key right_info with_left

  abbrev split_map : Entries SendInfo
  split_map = (Entries.replace key right_key right_info changed).0

  changed_lem : changed ≡ (key, right_info) ∷ Entries.put left_key left_info rest
  changed_lem = rw (==_ne left_key key (λ e. key-ne-left (sym e))) (
      ap (Entries.put key right_info)
        (Laws.put-cons_ne left_key key left_info info rest key-ne-left)
      ∙ Laws.put-cons_self key right_info info (Entries.put left_key left_info rest))

  right_absent : Entries.get right_key (Entries.put left_key left_info rest) ≡ none
  right_absent =
      Laws.get-put left_key right_key left_info rest
      ∙ rw (==_ne left_key right_key left-ne-right) (get-apart right_key rest rest-ne-right)

  -- It is the old one with the right half in the place of the packet, and the left half put behind.
  pub split_map_lem : split_map ≡ (right_key, right_info) ∷ Entries.put left_key left_info rest
  split_map_lem =
      ap (λ m. (Entries.replace key right_key right_info m).0) changed_lem
      ∙ Laws.replace-first key right_key right_info right_info (Entries.put left_key left_info rest)
          right_absent

  right_sub : (k : ℕ) → Apart key k → Apart right_key k
  right_sub k (inl h) = inl (omega (arith, right_fields))
  right_sub k (inr h) = inr (omega (arith, right_fields))

  left_sub : (k : ℕ) → Apart key k → Apart k left_key
  left_sub k (inl h) = inr (omega (arith, left_fields))
  left_sub k (inr h) = inl (omega (arith, left_fields))

  pub split-Separate : Separate rest → Separate split_map
  split-Separate t = rw split_map_lem (
    Laws.All-put (λ e. Apart right_key e.0) left_key left_info rest
        (All-map rest (λ e a. right_sub e.0 a) apart)
        (inr (omega (arith, left_fields, right_fields))),
    Separate-put left_key left_info rest (All-map rest (λ e a. left_sub e.0 a) apart) t,
  )

  pub split-flight :
      (w : List ℕ) (sent : ℕ)
      → InFlight w sent (right_key, right_info)
      → InFlight w sent (left_key, left_info)
      → All (InFlight w sent) rest
      → All (InFlight w sent) split_map
  split-flight w sent right left all =
      rw split_map_lem (right, Laws.All-put (InFlight w sent) left_key left_info rest all left)
