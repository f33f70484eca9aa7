-- ===== src/Entries/Laws.antt =====
-- The laws of the ordered map.
use qotp.Base.{
  ℕ, ◌≡◌, ◌≢◌, refl, true, false, none, some, [], ◌∷◌, if◌then◌else◌, ◌==◌, All, arith, Bool-cases,
  inl, inr, sym, ==_iff, ==_self, ==_ne, ==_conflict,
}
use mathlib.Core.Path.{subst, subst₂}
use qotp.Entries.{Entries, get, put, remove, rename, replace, contains}

module _ {ℓ} {V : Type ℓ} where
  pub get-put :
      (k j : ℕ) (v : V) (m : Entries V) → get j (put k v m) ≡ (if k == j then some v else get j m)
  unfolding get put
  get-put k j v [] = refl
  get-put k j v ((i, w) ∷ m) = ground (arith, get-put k j v m)

  -- A predicate on entries survives each change.
  module _ {κ} (P : ℕ × V → Type κ) where
    pub All-put : (k : ℕ) (v : V) (m : Entries V) → All P m → P (k, v) → All P (put k v m)
    unfolding put
    All-put k v [] h new = (new, tt)
    All-put k v ((j, w) ∷ m) h new = elim (Bool-cases (j == k)) [
      | inl e ↦ rw e (subst (λ i. P (i, v)) (sym ((==_iff j k).0 e)) new, h.1)
      | inr e ↦ rw e (h.0, All-put k v m h.1 new)
    ]

    pub All-remove : (k : ℕ) (m : Entries V) → All P m → All P (remove k m)
    unfolding remove
    All-remove k [] h = h
    All-remove k ((j, w) ∷ m) h = elim (Bool-cases (j == k)) [
      | inl e ↦ rw e h.1
      | inr e ↦ rw e (h.0, All-remove k m h.1)
    ]

    All-rename :
        (old new : ℕ) (v : V) (m : Entries V) → All P m → P (new, v) → All P (rename old new v m)
    unfolding rename
    All-rename old new v [] h p = h
    All-rename old new v ((j, w) ∷ m) h p = elim (Bool-cases (j == old)) [
      | inl e ↦ rw e (p, h.1)
      | inr e ↦ rw e (h.0, All-rename old new v m h.1 p)
    ]

    pub All-replace :
        (old new : ℕ) (v : V) (m : Entries V) → All P m → P (new, v) → All P (replace old new v m).0
    unfolding replace
    All-replace old new v m h p = elim (Bool-cases (contains old m)) [
      | inr e ↦ rw e h
      | inl e ↦ rw e (elim (Bool-cases (old == new)) [
        | inl e' ↦ rw e' (All-rename old new v m h p)
        | inr e' ↦ rw e' (elim (Bool-cases (contains new m)) [
          | inl e'' ↦ rw e'' h
          | inr e'' ↦ rw e'' (All-rename old new v m h p)
        ])
      ])
    ]

    pub All-get : (k : ℕ) (m : Entries V) {v : V} → All P m → get k m ≡ some v → P (k, v)
    unfolding get
    All-get k [] h e = cc
    All-get k ((j, w) ∷ m) {v} h e = elim (Bool-cases (j == k)) [
      | inl t ↦
          let found : some w ≡ some v = rw t at e in
          let same : w ≡ v = cc in subst₂ (λ i u. P (i, u)) ((==_iff j k).0 t) same h.0
      | inr t ↦ All-get k m h.1 (rw t at e)
    ]

  pub put-cons_ne :
      (k j : ℕ) (v u : V) (m : Entries V) → j ≢ k → put k v ((j, u) ∷ m) ≡ (j, u) ∷ put k v m
  unfolding put
  put-cons_ne k j v u m h = rw (==_ne j k h)

  pub put-cons_self : (k : ℕ) (v u : V) (m : Entries V) → put k v ((k, u) ∷ m) ≡ (k, v) ∷ m
  unfolding put
  put-cons_self k v u m = rw (==_self k)

  rename-cons_self :
      (old new : ℕ) (v u : V) (m : Entries V) → rename old new v ((old, u) ∷ m) ≡ (new, v) ∷ m
  unfolding rename
  rename-cons_self old new v u m = rw (==_self old)

  contains-cons_self : (k : ℕ) (u : V) (m : Entries V) → contains k ((k, u) ∷ m) ≡ true
  unfolding get
  contains-cons_self k u m = rw (==_self k, contains)

  contains-cons_ne :
      (k j : ℕ) (u : V) (m : Entries V) → j ≢ k → get k m ≡ none → contains k ((j, u) ∷ m) ≡ false
  unfolding get
  contains-cons_ne k j u m h absent = rw (==_ne j k h, absent, contains)

  -- The first entry takes a new key that no other entry has.
  pub replace-first :
      (old new : ℕ) (v u : V) (m : Entries V)
      → get new m ≡ none
      → (replace old new v ((old, u) ∷ m)).0 ≡ (new, v) ∷ m
  unfolding replace
  replace-first old new v u m absent =
      rw (contains-cons_self old u m) (elim (Bool-cases (old == new)) [
        | inl e ↦ rw e (rename-cons_self old new v u m)
        | inr e ↦
            rw (e, contains-cons_ne new old u m (λ q. ==_conflict old new q e) absent)
              (rename-cons_self old new v u m)
      ])
